-- ===== src/Trust/Tests.antt =====
-- The ledger and the gate at small repositories.
use gwm_cli.Base.{
  ℕ, ◌≡◌, refl, true, false, List, [], ◌∷◌, Option, none, some, if◌then◌else◌, Text, text_eq, codes,
  is_whitespace,
}
use gwm_cli.Trust.Ledger.{prompt_mode, deny, is_trusted, hex_lower, env_truthy, resolve_mode}
use gwm_cli.Trust.Gate.{
  ok, contents, RepoConfig, Disk, hash_config, evaluate_bytes, evaluate, load, save, record_loaded,
  record_read, record_config,
}
use gwm_cli.Trust.Laws.Entries.{
  LedgerOp, record_op, revoke_op, run_ops, latest, is_hash, is_trusted-run_ops,
}
use gwm_cli.Trust.Laws.Decisions.{
  proceeds, on_record, may_run, evaluate_bytes-may_run, record_config-evaluate,
}

abbrev runs_one : Text → Option (RepoConfig ℕ)
runs_one bytes = some (record {
  copy = [];
  guard = [];
  no_symlink = [];
  command = bytes;
  hooks = record {
    pre_create = [];
    post_create = [];
    pre_bootstrap = [];
    post_bootstrap = [];
    pre_remove = [];
    post_remove = [];
  };
})

abbrev same_bytes : Text → List ℕ
same_bytes bytes = bytes

abbrev disk : Disk
disk = record {
  config_file = contents (codes "x");
  ledger_path = ok (codes "trust.toml");
  ledger_file = contents (record { entries = [] });
  save_error = none;
}

abbrev ops : List LedgerOp
ops =
    record_op 1 (codes "a") (codes "11") (codes "me")
    ∷ record_op 2 (codes "b") (codes "22") (codes "me")
    ∷ record_op 3 (codes "a") (codes "33") (codes "me")
    ∷ revoke_op (codes "b")
    ∷ []

is_trusted-run_ops_example :
    is_trusted (run_ops ops (record { entries = [] })) (codes "a") (codes "33")
    ≡ is_hash (latest (codes "a") ops none) (codes "33")
is_trusted-run_ops_example = is_trusted-run_ops ops (codes "a") (codes "33")

evaluate_bytes-may_run_example :
    proceeds (
      evaluate_bytes runs_one same_bytes
        (codes "c")
        (some (codes "x"))
        (codes "a")
        prompt_mode
        disk)
    ≡ may_run runs_one same_bytes (some (codes "x")) (codes "a") prompt_mode disk
evaluate_bytes-may_run_example =
    evaluate_bytes-may_run runs_one same_bytes (codes "c") (some (codes "x")) (codes "a")
      prompt_mode disk

recorded_hash :
    (record_config same_bytes 5 (codes "a") (codes "me") disk).1 ≡ ok (some (codes "78"))
unfolding record_config record_read record_loaded load save hash_config hex_lower
recorded_hash = refl

record_config-evaluate_example :
    (proceeds (
        evaluate runs_one same_bytes
          (codes "c")
          (codes "a")
          prompt_mode
          (record_config same_bytes 5 (codes "a") (codes "me") disk).0)
      ≡ true)
    × (on_record
          (codes "b")
          (codes "78")
          (record_config same_bytes 5 (codes "a") (codes "me") disk).0
        ≡ (if text_eq (codes "a") (codes "b")
            then text_eq (codes "78") (codes "78")
            else on_record (codes "b") (codes "78") disk))
record_config-evaluate_example =
    record_config-evaluate runs_one same_bytes 5 (codes "c") (codes "x") (codes "a") (codes "me")
      (codes "78") prompt_mode disk (codes "b") (codes "78") refl recorded_hash refl

truthy_values : env_truthy (some (codes " No ")) ≡ false
unfolding env_truthy text_eq is_whitespace
truthy_values = refl

denial_first : resolve_mode true true (some (codes "1")) ≡ deny
unfolding resolve_mode
denial_first = refl
