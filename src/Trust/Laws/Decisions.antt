-- ===== src/Trust/Laws/Decisions.antt =====
-- When the gate opens.
use gwm_cli.Base.{
  ℕ, ◌≡◌, refl, ap, sym, ◌∙◌, inl, inr, Bool, true, false, not, ◌&&◌, ◌||◌, List, [], Option, none,
  some, arith, if◌then◌else◌, Text, text_eq, text_eq_refl, Bool-cases,
}
use gwm_cli.Trust.Ledger.{
  TrustMode, prompt_mode, allow, deny, TrustLedger, is_trusted, record_entry,
}
use gwm_cli.Trust.Gate.{
  Fallible, ok, err, try, FileRead, contents, not_found, unreadable, RepoConfig, TrustOutcome,
  proceed, ask, Disk, load, hash_config, is_harmless, consult, gate, is_allow, is_deny,
  evaluate_bytes, evaluate, save, record_loaded, record_read, record_config, evaluate_read,
}
use gwm_cli.Trust.Laws.Entries.{is_trusted-record_entry}

abbrev pub proceeds : Fallible TrustOutcome → Bool
proceeds (ok proceed) = true
proceeds _ = false

abbrev pub is_none : Option Text → Bool
is_none none = true
is_none (some t) = false

abbrev pub trusts : Text → Text → Fallible TrustLedger → Bool
trusts origin sha (ok l) = is_trusted l origin sha
trusts origin sha (err e) = false

-- The ledger is there to be read, and trusts the origin with the hash.
abbrev pub on_record : Text → Text → Disk → Bool
on_record origin sha d = trusts origin sha (try d.ledger_path (λ path. load d.ledger_file))

if_same : (o s : Text) (b : Bool) → (if text_eq o o then text_eq s s else b) ≡ true
if_same o s b = rw (text_eq_refl o) (text_eq_refl s)

module _ {Step : Type 0} (parse_config : Text → Option (RepoConfig Step))
    (digest : Text → List ℕ) where
  -- A configuration that may run: none at all; or one that is not denied and is harmless,
  -- allowed for this run, or on record.
  abbrev pub may_run : Option Text → Text → TrustMode → Disk → Bool
  may_run none origin mode d = true
  may_run (some bytes) origin mode d =
      not (is_deny mode)
      && (is_harmless parse_config bytes
          || is_allow mode
          || on_record origin (hash_config digest bytes) d)

  if-proceeds :
      (b : Bool) (cfg_path body sha origin path : Text) (l : TrustLedger)
      → proceeds (ok (if b then proceed else ask cfg_path body sha origin l path)) ≡ b
  if-proceeds true cfg_path body sha origin path l = refl
  if-proceeds false cfg_path body sha origin path l = refl

  consult-proceeds :
      (cfg_path bytes origin : Text) (path : Fallible Text) (file : FileRead TrustLedger)
      → proceeds (consult parse_config digest cfg_path bytes origin path file)
        ≡ trusts origin (hash_config digest bytes) (try path (λ _. load file))
  unfolding consult load
  consult-proceeds cfg_path bytes origin (err e) file = refl
  consult-proceeds cfg_path bytes origin (ok path) (unreadable e) = refl
  consult-proceeds cfg_path bytes origin (ok path) not_found =
      let sha = hash_config digest bytes in
      if-proceeds (is_trusted (record { entries = [] }) origin sha) cfg_path bytes sha origin path
        (record { entries = [] })
  consult-proceeds cfg_path bytes origin (ok path) (contents l) =
      let sha = hash_config digest bytes in
      if-proceeds (is_trusted l origin sha) cfg_path bytes sha origin path l

  -- The gate lets a configuration through exactly if there is none, or if the run does not deny
  -- it and it is harmless, allowed for the run, or on record for its origin with its hash.
  pub evaluate_bytes-may_run :
      (cfg_path : Text) (bytes : Option Text) (origin : Text) (mode : TrustMode) (d : Disk)
      → proceeds (evaluate_bytes parse_config digest cfg_path bytes origin mode d)
        ≡ may_run bytes origin mode d
  unfolding evaluate_bytes gate
  evaluate_bytes-may_run cfg_path none origin mode d = refl
  evaluate_bytes-may_run cfg_path (some bytes) origin deny d = refl
  evaluate_bytes-may_run cfg_path (some bytes) origin allow d =
      elim (Bool-cases (is_harmless parse_config bytes)) [ inl t ↦ rw t refl | inr n ↦ rw n refl ]
  evaluate_bytes-may_run cfg_path (some bytes) origin prompt_mode d =
      elim (Bool-cases (is_harmless parse_config bytes)) [
        | inl t ↦ rw t refl
        | inr n ↦ rw n (consult-proceeds cfg_path bytes origin d.ledger_path d.ledger_file)
      ]

  save-ok :
      (e : Option Text) (l : TrustLedger) (sha : Text) (d : Disk) {out : Text}
      → (save digest e l sha d).1 ≡ ok (some out)
      → (out ≡ sha) × ((save digest e l sha d).0 ≡ record d { ledger_file = contents l })
  unfolding save
  save-ok none l sha d h = (cc, refl)
  save-ok (some e) l sha d h = absurd (ground (arith, h))

  -- What a recording that succeeds leaves: the ledger that was loaded, with one entry more.
  recorded :
      (now : ℕ) (sha origin actor : Text) (l : Fallible TrustLedger) (d : Disk) {out : Text}
      → (record_loaded digest now origin sha actor l d).1 ≡ ok (some out)
      → (old : TrustLedger) × (l ≡ ok old)
        × (out ≡ sha)
        × ((record_loaded digest now origin sha actor l d).0
            ≡ record d { ledger_file = contents (record_entry now old origin sha actor) })
  unfolding record_loaded
  recorded now sha origin actor (err e) d h = absurd (ground (arith, h))
  recorded now sha origin actor (ok old) d h =
      let s = save-ok d.save_error (record_entry now old origin sha actor) sha d h in
      (old, refl, s.0, s.1)

  try-ok :
      (p : Fallible Text) (file : FileRead TrustLedger) {old : TrustLedger}
      → try p (λ _. load file) ≡ ok old
      → (path : Text) × (p ≡ ok path)
  try-ok (ok path) file h = (path, refl)
  try-ok (err e) file h = absurd (ground (arith, h))

  on_record-recorded :
      (now : ℕ) (sha origin actor other hash : Text) (old : TrustLedger) (d : Disk)
      → try d.ledger_path (λ _. load d.ledger_file) ≡ ok old
      → on_record other hash
          (record d { ledger_file = contents (record_entry now old origin sha actor) })
        ≡ (if text_eq origin other then text_eq sha hash else on_record other hash d)
  on_record-recorded now sha origin actor other hash old d h =
      let p = try-ok d.ledger_path d.ledger_file h in
      ap
        (λ q.
          trusts other hash (try q (λ _. load (contents (record_entry now old origin sha actor)))))
        p.1
      ∙ unfold load in
        is_trusted-record_entry now old origin sha actor other hash
        ∙ ap (λ b. if text_eq origin other then text_eq sha hash else b)
            (sym (ap (trusts other hash) h))

  -- Recording the configuration, when that succeeds, lets it through from then on in a run that
  -- does not deny; on record are the origin with its hash, and the other origins as before.
  pub record_config-evaluate :
      (now : ℕ) (cfg_path bytes origin actor sha : Text) (mode : TrustMode) (d : Disk)
      (other hash : Text)
      → d.config_file ≡ contents bytes
      → (record_config digest now origin actor d).1 ≡ ok (some sha)
      → is_deny mode ≡ false
      → (proceeds (
            evaluate parse_config digest cfg_path origin mode
              (record_config digest now origin actor d).0)
          ≡ true)
        × (on_record other hash (record_config digest now origin actor d).0
            ≡ (if text_eq origin other then text_eq sha hash else on_record other hash d))
  unfolding record_config record_read evaluate evaluate_read
  record_config-evaluate now cfg_path bytes origin actor sha mode d other hash h r m =
      let loaded = try d.ledger_path (λ _. load d.ledger_file) in
      let step : record_config digest now origin actor d
          ≡ record_loaded digest now origin (hash_config digest bytes) actor loaded d =
        ap (λ c. record_read digest c now origin actor d) h in
      let done =
        recorded now (hash_config digest bytes) origin actor loaded d
          (sym (ap (λ x. x.1) step) ∙ r) in
      let old = done.0 in
      let after : Disk = record d {
        ledger_file = contents (record_entry now old origin (hash_config digest bytes) actor);
      } in
      let left : (record_config digest now origin actor d).0 ≡ after =
        ap (λ x. x.0) step ∙ done.3 in
      let same : on_record other hash after ≡ (
          if text_eq origin other
          then text_eq (hash_config digest bytes) hash
          else on_record other hash d) =
        on_record-recorded now (hash_config digest bytes) origin actor other hash old d done.1 in
      let own : on_record origin (hash_config digest bytes) after ≡ true =
        on_record-recorded now (hash_config digest bytes) origin actor origin
          (hash_config digest bytes) old d done.1
        ∙ if_same origin (hash_config digest bytes)
            (on_record origin (hash_config digest bytes) d) in
      let open_gate : proceeds
            (evaluate_bytes parse_config digest cfg_path (some bytes) origin mode after)
          ≡ true =
        evaluate_bytes-may_run cfg_path (some bytes) origin mode after ∙ ground (arith, m, own) in
      let again : evaluate parse_config digest cfg_path origin mode after
          ≡ evaluate_bytes parse_config digest cfg_path (some bytes) origin mode after =
        ap (λ c. evaluate_read parse_config digest c cfg_path origin mode after) h in
      (
        ap (λ x. proceeds (evaluate parse_config digest cfg_path origin mode x)) left
            ∙ ap proceeds again
            ∙ open_gate,
        ap (on_record other hash) left
            ∙ same
            ∙ ap (λ x. if text_eq origin other then text_eq x hash else on_record other hash d)
                (sym done.2),
      )
