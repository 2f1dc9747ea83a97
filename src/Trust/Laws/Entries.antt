-- ===== src/Trust/Laws/Entries.antt =====
-- The ledger as a map: an origin has the hash that was recorded for it last.
use gwm_cli.Base.{
  ℕ, ◌+◌, ◌-◌, ◌≡◌, refl, ◌∙◌, inl, inr, Bool, false, not, ◌&&◌, ◌||◌, List, [], ◌∷◌, ◌++◌, Option,
  none, some, arith, if◌then◌else◌, length, Text, text_eq, text_eq_iff, Bool-cases,
}
use gwm_cli.Trust.Ledger.{
  TrustEntry, TrustLedger, find_entry, is_trusted, without_origin, record_entry, revoke,
}

find-without_origin :
    (o origin sha : Text) (es : List TrustEntry)
    → find_entry origin sha (without_origin o es)
      ≡ (not (text_eq o origin) && find_entry origin sha es)
unfolding find_entry without_origin
find-without_origin o origin sha [] = ground arith
find-without_origin o origin sha (e ∷ es) = ground (
  arith,
  find-without_origin o origin sha es,
  text_eq_iff e.origin o,
  text_eq_iff e.origin origin,
  text_eq_iff o origin,
)

find-append :
    (origin sha : Text) (es fs : List TrustEntry)
    → find_entry origin sha (es ++ fs) ≡ (find_entry origin sha es || find_entry origin sha fs)
unfolding find_entry
find-append origin sha [] fs = refl
find-append origin sha (e ∷ es) fs = ground (arith, find-append origin sha es fs)

pub is_trusted-record_entry :
    (now : ℕ) (l : TrustLedger) (o s by origin sha : Text)
    → is_trusted (record_entry now l o s by) origin sha
      ≡ (if text_eq o origin then text_eq s sha else is_trusted l origin sha)
unfolding is_trusted record_entry
is_trusted-record_entry now l o s by origin sha =
    let e : TrustEntry = record { origin = o; config_sha = s; trusted_at = now; trusted_by = by } in
    find-append origin sha (without_origin o l.entries) (e ∷ [])
    ∙ unfold find_entry in ground (arith, find-without_origin o origin sha l.entries)

is_trusted-revoke :
    (l : TrustLedger) (o origin sha : Text)
    → is_trusted (revoke l o).0 origin sha ≡ (not (text_eq o origin) && is_trusted l origin sha)
unfolding is_trusted revoke
is_trusted-revoke l o origin sha = find-without_origin o origin sha l.entries

-- What the user does with a ledger.
pub data LedgerOp : Type 0 where
  record_op : ℕ → Text → Text → Text → LedgerOp
  revoke_op : Text → LedgerOp

abbrev pub run_op : LedgerOp → TrustLedger → TrustLedger
run_op (record_op now o s by) l = record_entry now l o s by
run_op (revoke_op o) l = (revoke l o).0

abbrev pub run_ops : List LedgerOp → TrustLedger → TrustLedger
run_ops [] l = l
run_ops (x ∷ xs) l = run_ops xs (run_op x l)

-- The map that the ledger stands for: the hash that an origin has after the operations.
abbrev pub latest : Text → List LedgerOp → Option Text → Option Text
latest origin [] now_has = now_has
latest origin (record_op t o s by ∷ xs) now_has =
    latest origin xs (if text_eq o origin then some s else now_has)
latest origin (revoke_op o ∷ xs) now_has =
    latest origin xs (if text_eq o origin then none else now_has)

abbrev pub is_hash : Option Text → Text → Bool
is_hash none sha = false
is_hash (some s) sha = text_eq s sha

hash_if :
    (o origin : Text) (new now_has : Option Text) (sha : Text) (b : Bool)
    → b ≡ is_hash now_has sha
    → (if text_eq o origin then is_hash new sha else b)
      ≡ is_hash (if text_eq o origin then new else now_has) sha
hash_if o origin new now_has sha b h = elim (Bool-cases (text_eq o origin)) [
  | inl t ↦ rw t refl
  | inr n ↦ rw n h
]

run_ops-latest :
    (origin sha : Text) (xs : List LedgerOp) (l : TrustLedger) (now_has : Option Text)
    → is_trusted l origin sha ≡ is_hash now_has sha
    → is_trusted (run_ops xs l) origin sha ≡ is_hash (latest origin xs now_has) sha
run_ops-latest origin sha [] l now_has h = h
run_ops-latest origin sha (record_op t o s by ∷ xs) l now_has h =
    run_ops-latest origin sha xs (record_entry t l o s by)
      (if text_eq o origin then some s else now_has)
      (is_trusted-record_entry t l o s by origin sha
        ∙ hash_if o origin (some s) now_has sha (is_trusted l origin sha) h)
run_ops-latest origin sha (revoke_op o ∷ xs) l now_has h =
    run_ops-latest origin sha xs (revoke l o).0 (if text_eq o origin then none else now_has) (
      is_trusted-revoke l o origin sha
      ∙ ground (arith, hash_if o origin none now_has sha (is_trusted l origin sha) h))

-- Whatever is recorded and revoked from an empty ledger on, an origin is trusted with exactly the
-- hash that was recorded for it last, and with none if it was revoked since.
pub is_trusted-run_ops :
    (xs : List LedgerOp) (origin sha : Text)
    → is_trusted (run_ops xs (record { entries = [] })) origin sha
      ≡ is_hash (latest origin xs none) sha
is_trusted-run_ops xs origin sha =
    run_ops-latest origin sha xs (record { entries = [] }) none
      (unfold is_trusted find_entry in refl)

-- How many entries an origin has.
abbrev entries_of : Text → List TrustEntry → ℕ
entries_of o [] = 0
entries_of o (e ∷ es) = (if text_eq e.origin o then 1 else 0) + entries_of o es

split_length :
    (o : Text) (es : List TrustEntry) → length es ≡ length (without_origin o es) + entries_of o es
unfolding without_origin
split_length o [] = refl
split_length o (e ∷ es) = ground (arith, split_length o es)

length-without_origin :
    (o : Text) (es : List TrustEntry) → length es - length (without_origin o es) ≡ entries_of o es
unfolding without_origin
length-without_origin o es = omega (arith, split_length o es)

entries-without_origin :
    (o origin : Text) (es : List TrustEntry)
    → entries_of origin (without_origin o es)
      ≡ (if text_eq o origin then 0 else entries_of origin es)
unfolding without_origin
entries-without_origin o origin [] = ground arith
entries-without_origin o origin (e ∷ es) = ground (
  arith,
  entries-without_origin o origin es,
  text_eq_iff e.origin o,
  text_eq_iff e.origin origin,
  text_eq_iff o origin,
)

entries-append :
    (o : Text) (es fs : List TrustEntry)
    → entries_of o (es ++ fs) ≡ entries_of o es + entries_of o fs
entries-append o [] fs = omega arith
entries-append o (e ∷ es) fs = omega (arith, entries-append o es fs)

abbrev pub has_hash : Option Text → ℕ
has_hash none = 0
has_hash (some s) = 1

count_if :
    (o origin : Text) (new now_has : Option Text) (n : ℕ)
    → n ≡ has_hash now_has
    → (if text_eq o origin then has_hash new else n)
      ≡ has_hash (if text_eq o origin then new else now_has)
count_if o origin new now_has n h = elim (Bool-cases (text_eq o origin)) [
  | inl t ↦ rw t refl
  | inr f ↦ rw f h
]

count_recorded :
    (now : ℕ) (l : TrustLedger) (o s by origin : Text)
    → entries_of origin (record_entry now l o s by).entries
      ≡ (if text_eq o origin then 1 else entries_of origin l.entries)
unfolding record_entry
count_recorded now l o s by origin =
    let e : TrustEntry = record { origin = o; config_sha = s; trusted_at = now; trusted_by = by } in
    entries-append origin (without_origin o l.entries) (e ∷ [])
    ∙ ground (arith, entries-without_origin o origin l.entries)

entries-run_ops :
    (origin : Text) (xs : List LedgerOp) (l : TrustLedger) (now_has : Option Text)
    → entries_of origin l.entries ≡ has_hash now_has
    → entries_of origin (run_ops xs l).entries ≡ has_hash (latest origin xs now_has)
entries-run_ops origin [] l now_has h = h
entries-run_ops origin (record_op t o s by ∷ xs) l now_has h =
    entries-run_ops origin xs (record_entry t l o s by)
      (if text_eq o origin then some s else now_has)
      (count_recorded t l o s by origin
        ∙ count_if o origin (some s) now_has (entries_of origin l.entries) h)
entries-run_ops origin (revoke_op o ∷ xs) l now_has h =
    entries-run_ops origin xs (revoke l o).0 (if text_eq o origin then none else now_has) (
      unfold revoke in
      entries-without_origin o origin l.entries
      ∙ count_if o origin none now_has (entries_of origin l.entries) h)

-- Whatever was recorded and revoked before, revoking an origin tells that one entry goes if a
-- hash was recorded for it and not revoked since, and that none goes otherwise.
pub revoke-run_ops :
    (xs : List LedgerOp) (origin : Text)
    → (revoke (run_ops xs (record { entries = [] })) origin).1 ≡ has_hash (latest origin xs none)
unfolding revoke
revoke-run_ops xs origin =
    length-without_origin origin (run_ops xs (record { entries = [] })).entries
    ∙ entries-run_ops origin xs (record { entries = [] }) none refl
