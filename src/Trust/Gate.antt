-- ===== src/Trust/Gate.antt =====
-- src/trust.rs: the gate in front of a repository's commands. `Disk` is what a run finds outside:
-- the configuration, the path of the ledger, the ledger, and whether it can be saved.
use gwm_cli.Base.{
  Bool, true, false, not, ◌&&◌, List, [], ◌++◌, Option, none, some, if◌then◌else◌, is_empty, take,
  Text, codes, ℕ,
}
use gwm_cli.Trust.Ledger.{TrustMode, allow, deny, TrustLedger, is_trusted, record_entry, hex_lower}

-- `Result`, with the text of the error.
pub data Fallible (A : Type 0) : Type 0 where
  ok : A → Fallible A
  err : Text → Fallible A

abbrev pub try : {A B : Type 0} → Fallible A → (A → Fallible B) → Fallible B
try (ok a) g = g a
try (err e) g = err e

-- A read of a file: what it holds, no such file, or another error.
pub data FileRead (A : Type 0) : Type 0 where
  contents : A → FileRead A
  not_found : FileRead A
  unreadable : Text → FileRead A

-- The steps of a configuration, whose contents the gate does not look at.
pub record LifecycleHooksConfig (Step : Type 0) : Type 0 where
  pub pre_create : List Step
  pub post_create : List Step
  pub pre_bootstrap : List Step
  pub post_bootstrap : List Step
  pub pre_remove : List Step
  pub post_remove : List Step

pub record RepoConfig (Step : Type 0) : Type 0 where
  pub copy : List Step
  pub guard : List Step
  pub no_symlink : List Step
  pub command : List Step
  pub hooks : LifecycleHooksConfig Step

pub data TrustOutcome : Type 0 where
  proceed : TrustOutcome
  refuse : Text → TrustOutcome
  ask : (cfg_path body sha origin : Text) → TrustLedger → (ledger_path : Text) → TrustOutcome

pub record Disk : Type 0 where
  pub config_file : FileRead Text
  pub ledger_path : Fallible Text
  pub ledger_file : FileRead TrustLedger
  pub save_error : Option Text

unfoldable pub load : FileRead TrustLedger → Fallible TrustLedger
load (contents l) = ok l
load not_found = ok (record { entries = [] })
load (unreadable e) = err e

module _ {Step : Type 0} where
  unfoldable pub has_any : LifecycleHooksConfig Step → Bool
  has_any h = not (
      is_empty h.pre_create
      && is_empty h.post_create
      && is_empty h.pre_bootstrap
      && is_empty h.post_bootstrap
      && is_empty h.pre_remove
      && is_empty h.post_remove)

  unfoldable pub runs_nothing : RepoConfig Step → Bool
  runs_nothing c =
      is_empty c.copy
      && is_empty c.guard
      && is_empty c.no_symlink
      && is_empty c.command
      && not (has_any c.hooks)

abbrev pub is_allow : TrustMode → Bool
is_allow allow = true
is_allow _ = false

abbrev pub is_deny : TrustMode → Bool
is_deny deny = true
is_deny _ = false

module _ (digest : Text → List ℕ) where
  unfoldable pub hash_config : Text → Text
  hash_config bytes = hex_lower (digest bytes)

  unfoldable pub lookup_saved : Text → Text → Disk → Fallible Bool
  lookup_saved bytes origin d = try d.ledger_path (λ path.
      try (load d.ledger_file) (λ ledger. ok (is_trusted ledger origin (hash_config bytes))))

  -- The forge's question, which has no exception for a harmless configuration.
  unfoldable pub config_is_trusted : Text → TrustMode → Disk → Fallible Bool
  config_is_trusted origin mode d = elim d.config_file [
    | not_found ↦ ok false
    | unreadable e ↦ err e
    | contents bytes ↦
        (if is_deny mode
          then ok false
          else if is_allow mode
          then ok true
          else lookup_saved bytes origin d)
  ]

  -- `save` writes the whole ledger or leaves the file as it was.
  unfoldable pub save : Option Text → TrustLedger → Text → Disk → Disk × Fallible (Option Text)
  save none ledger sha d = (record d { ledger_file = contents ledger }, ok (some sha))
  save (some e) ledger sha d = (d, err e)

  unfoldable pub record_loaded :
      ℕ → Text → Text → Text → Fallible TrustLedger → Disk → Disk × Fallible (Option Text)
  record_loaded now origin sha actor (err e) d = (d, err e)
  record_loaded now origin sha actor (ok ledger) d =
      save d.save_error (record_entry now ledger origin sha actor) sha d

  unfoldable pub record_read :
      FileRead Text → ℕ → Text → Text → Disk → Disk × Fallible (Option Text)
  record_read not_found now origin actor d = (d, ok none)
  record_read (unreadable e) now origin actor d = (d, err e)
  record_read (contents bytes) now origin actor d =
      record_loaded now origin (hash_config bytes) actor
        (try d.ledger_path (λ path. load d.ledger_file)) d

  unfoldable pub record_config : ℕ → Text → Text → Disk → Disk × Fallible (Option Text)
  record_config now origin actor d = record_read d.config_file now origin actor d

-- The parser gives `none` for bytes that are no Unicode or no configuration.
module _ {Step : Type 0} (parse_config : Text → Option (RepoConfig Step)) where
  -- A configuration that does not parse is not harmless.
  unfoldable pub is_harmless : Text → Bool
  is_harmless bytes = elim (parse_config bytes) [ none ↦ false | some c ↦ runs_nothing c ]

module _ {Step : Type 0} (parse_config : Text → Option (RepoConfig Step))
    (digest : Text → List ℕ) where
  unfoldable pub consult :
      Text → Text → Text → Fallible Text → FileRead TrustLedger → Fallible TrustOutcome
  consult cfg_path bytes origin path file = try path (λ ledger_path. try (load file) (λ ledger. ok (
      if is_trusted ledger origin (hash_config digest bytes)
      then proceed
      else ask cfg_path bytes (hash_config digest bytes) origin ledger ledger_path)))

  -- A configuration that has something to run, or that does not parse: `allow` comes before any
  -- read of the ledger.
  unfoldable pub gate : Bool → Text → Text → Text → Disk → Fallible TrustOutcome
  gate allowed cfg_path bytes origin d =
      if allowed then ok proceed else consult cfg_path bytes origin d.ledger_path d.ledger_file

  unfoldable pub evaluate_bytes :
      Text → Option Text → Text → TrustMode → Disk → Fallible TrustOutcome
  evaluate_bytes cfg_path none origin mode d = ok proceed
  evaluate_bytes cfg_path (some bytes) origin mode d =
      if is_deny mode
      then ok (
          refuse (
            codes "--deny-bootstrap: refusing to run .gwm.toml bootstrap (config hash: "
            ++ (take 12 (hash_config digest bytes) ++ codes ")")))
      else if is_harmless parse_config bytes
      then ok proceed
      else gate (is_allow mode) cfg_path bytes origin d

  unfoldable pub evaluate_read :
      FileRead Text → Text → Text → TrustMode → Disk → Fallible TrustOutcome
  evaluate_read (contents bytes) cfg_path origin mode d =
      evaluate_bytes cfg_path (some bytes) origin mode d
  evaluate_read not_found cfg_path origin mode d = evaluate_bytes cfg_path none origin mode d
  evaluate_read (unreadable e) cfg_path origin mode d = err e

  unfoldable pub evaluate : Text → Text → TrustMode → Disk → Fallible TrustOutcome
  evaluate cfg_path origin mode d = evaluate_read d.config_file cfg_path origin mode d

  unfoldable pub refusal_for : TrustOutcome → Text → Option Text
  refusal_for proceed hint = none
  refusal_for (refuse message) hint = some message
  refusal_for (ask cfg_path body sha origin ledger ledger_path) hint = some (
      codes ".gwm.toml at "
      ++ (cfg_path
          ++ (codes " not in trust ledger (hash " ++ (take 12 sha ++ (codes "): " ++ hint)))))

  unfoldable pub evaluate_silent : Text → Text → TrustMode → Text → Disk → Fallible (Option Text)
  evaluate_silent cfg_path origin mode hint d =
      try (evaluate cfg_path origin mode d) (λ outcome. ok (refusal_for outcome hint))
