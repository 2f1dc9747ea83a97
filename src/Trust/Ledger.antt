-- ===== src/Trust/Ledger.antt =====
-- src/trust.rs: the trust ledger, the hash of a configuration and the mode of a run.
use gwm_cli.Base.{
  trim_start, trim_end, ℕ, ◌+◌, ◌-◌, ◌/◌, ◌%◌, Bool, false, not, ◌&&◌, ◌||◌, List, [], ◌∷◌, ◌++◌,
  Option, none, some, if◌then◌else◌, length, is_empty, ltb, Text, text_eq, codes, within,
}

pub data TrustMode : Type 0 where
  prompt_mode allow deny : TrustMode

abbrev pub to_lower : ℕ → ℕ
to_lower c = if within b'A' b'Z' c then c + 32 else c

abbrev pub lower_all : Text → Text
lower_all [] = []
lower_all (c ∷ s) = to_lower c ∷ lower_all s

-- The value of the environment variable, `none` when it is unset or not Unicode.
unfoldable pub env_truthy : Option Text → Bool
env_truthy none = false
env_truthy (some v) =
    let w = lower_all (trim_end (trim_start v)) in
    not (is_empty w)
    && not (text_eq w (codes "0"))
    && not (text_eq w (codes "false"))
    && not (text_eq w (codes "no"))

unfoldable pub resolve_mode : Bool → Bool → Option Text → TrustMode
resolve_mode allow_flag deny_flag env =
    if deny_flag then deny else if allow_flag || env_truthy env then allow else prompt_mode

-- The remote's address, or the workdir in its canonical form.
unfoldable pub resolve_origin_key : Option Text → Text → Text
resolve_origin_key none workdir = workdir
resolve_origin_key (some url) workdir = if is_empty url then workdir else url

pub record TrustEntry : Type 0 where
  pub origin : Text
  pub config_sha : Text
  pub trusted_at : ℕ
  pub trusted_by : Text

pub record TrustLedger : Type 0 where
  pub entries : List TrustEntry

unfoldable pub find_entry : Text → Text → List TrustEntry → Bool
find_entry origin sha [] = false
find_entry origin sha (e ∷ es) =
    text_eq e.origin origin && text_eq e.config_sha sha || find_entry origin sha es

unfoldable pub is_trusted : TrustLedger → Text → Text → Bool
is_trusted l origin sha = find_entry origin sha l.entries

-- `retain(|e| e.origin != origin)`.
unfoldable pub without_origin : Text → List TrustEntry → List TrustEntry
without_origin origin [] = []
without_origin origin (e ∷ es) =
    let rest = without_origin origin es in if text_eq e.origin origin then rest else e ∷ rest

-- The time is the clock's.
unfoldable pub record_entry : ℕ → TrustLedger → Text → Text → Text → TrustLedger
record_entry now l origin sha by = record {
  entries =
      without_origin origin l.entries
      ++ (record { origin = origin; config_sha = sha; trusted_at = now; trusted_by = by } ∷ []);
}

unfoldable pub revoke : TrustLedger → Text → TrustLedger × ℕ
revoke l origin =
    let kept = without_origin origin l.entries in
    (record { entries = kept }, length l.entries - length kept)

abbrev pub hex_digit : ℕ → ℕ
hex_digit d = if ltb d 10 then b'0' + d else b'a' + (d - 10)

-- `{:02x}` of each byte.
unfoldable pub hex_lower : List ℕ → Text
hex_lower [] = []
hex_lower (b ∷ bs) = hex_digit (b / 16) ∷ hex_digit (b % 16) ∷ hex_lower bs
