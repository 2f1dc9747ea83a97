-- ===== src/Removal/Worktrees.antt =====
-- src/worktree.rs: the removal proper (remove_inner, verify_path, head_branch), and `record` of
-- src/history.rs. `W` is the world outside: libgit2, the file system and the clock are parameters.
use gwm_cli.Base.{ℕ, Bool, false, not, ◌&&◌, [], Option, none, some, if◌then◌else◌, Text, codes}
use gwm_cli.Trust.Gate.{Fallible, ok, err, FileRead, contents, not_found, unreadable}
use gwm_cli.History.{FilePath, path_eq, OpEntry, Journal, append}

-- What opening a worktree's repository and reading its HEAD gives; a name that is not Unicode is
-- `none`.
pub data Head : Type 0 where
  not_opened : Head
  no_head : Head
  on_branch : Option Text → Head
  off_branch : Head

pub data HeadBranch : Type 0 where
  attached : Text → HeadBranch
  detached : HeadBranch
  unreadable_head : HeadBranch

pub data GwmError : Type 0 where
  worktree_not_found : Text → GwmError
  path_changed : (name : Text) (actual expected : FilePath) → GwmError
  git_error : Text → GwmError
  io_error : Text → GwmError
  hook_error : Text → GwmError

-- What the code calls outside. An action gives the new world, and its error if there is one.
pub record Outside (W : Type 0) : Type 0 where
  pub find_worktree : W → Text → Option FilePath
  pub read_head : W → FilePath → Head
  pub prune : W → Text → W × Option Text
  pub exists : W → FilePath → Bool
  pub remove_dir_all : W → FilePath → W × Option Text
  pub has_branch : W → Text → Bool
  pub target_oid : W → Text → Option Text
  pub delete : W → Text → W
  pub now : W → ℕ
  pub repo_root : W → FilePath
  pub journal_path : W → Fallible FilePath
  pub read_journal : W → FilePath → FileRead Journal
  pub save_journal : W → FilePath → Journal → W × Option Text

unfoldable pub branch_of_head : Head → HeadBranch
branch_of_head not_opened = unreadable_head
branch_of_head no_head = unreadable_head
branch_of_head (on_branch none) = unreadable_head
branch_of_head (on_branch (some b)) = attached b
branch_of_head off_branch = detached

unfoldable pub head_name : HeadBranch → Option Text
head_name (attached b) = some b
head_name detached = none
head_name unreadable_head = none

-- The end of a removal: the world, the warning that its record left, and its error.
pub record Removed (W : Type 0) : Type 0 where
  pub world : W
  pub warning : Option Text
  pub error : Option GwmError

module _ {W : Type 0} (o : Outside W) where
  unfoldable pub head_branch : W → FilePath → HeadBranch
  head_branch w path = branch_of_head (o.read_head w path)

  abbrev pub compare_path : Text → FilePath → Option FilePath → Option GwmError
  compare_path name expected none = some (worktree_not_found name)
  compare_path name expected (some actual) =
      if path_eq actual expected then none else some (path_changed name actual expected)

  unfoldable pub verify_path : W → Text → FilePath → Option GwmError
  verify_path w name expected = compare_path name expected (o.find_worktree w name)

  -- `append` does not panic: `append-total`.
  abbrev pub save_appended : W → FilePath → Option Journal → W × Option Text
  save_appended w file none = (w, some (codes "panic"))
  save_appended w file (some j) = o.save_journal w file j

  abbrev pub append_read : W → FilePath → OpEntry → FileRead Journal → W × Option Text
  append_read w file entry (contents j) = save_appended w file (append entry j)
  append_read w file entry not_found = save_appended w file (append entry [])
  append_read w file entry (unreadable e) = (w, some e)

  abbrev pub record_at : W → OpEntry → Fallible FilePath → W × Option Text
  record_at w entry (err e) = (w, some e)
  record_at w entry (ok file) = append_read w file entry (o.read_journal w file)

  unfoldable pub record_in_history : W → OpEntry → W × Option Text
  record_in_history w entry = record_at w entry (o.journal_path w)

  unfoldable pub drop_branch : Bool → W → Option Text → W
  drop_branch delete_branch w none = w
  drop_branch delete_branch w (some b) =
      if delete_branch && o.has_branch w b then o.delete w b else w

  module _ (delete_branch : Bool) (note : W → HeadBranch → W × Option Text) where
    -- The point of no return is behind: the record, then the branch.
    unfoldable pub finish : HeadBranch → W → Removed W
    finish head w =
        let noted = note w head in
        record {
          world = drop_branch delete_branch noted.0 (head_name head);
          warning = noted.1;
          error = none;
        }

    abbrev pub after_dir : HeadBranch → W × Option Text → Removed W
    after_dir head (w, some e) = record { world = w; warning = none; error = some (io_error e) }
    after_dir head (w, none) = finish head w

    abbrev pub after_prune : FilePath → HeadBranch → W × Option Text → Removed W
    after_prune path head (w, some e) = record {
      world = w;
      warning = none;
      error = some (git_error e);
    }
    after_prune path head (w, none) =
        if o.exists w path then after_dir head (o.remove_dir_all w path) else finish head w

    abbrev pub is_moved : Option FilePath → FilePath → Bool
    is_moved none actual = false
    is_moved (some expected) actual = not (path_eq actual expected)

    abbrev pub moved_error : Text → Option FilePath → FilePath → GwmError
    moved_error name none actual = path_changed name actual actual
    moved_error name (some expected) actual = path_changed name actual expected

    abbrev pub remove_found : W → Text → Option FilePath → Option FilePath → Removed W
    remove_found w name expected none = record {
      world = w;
      warning = none;
      error = some (worktree_not_found name);
    }
    remove_found w name expected (some path) =
        if is_moved expected path
        then record { world = w; warning = none; error = some (moved_error name expected path) }
        else after_prune path (head_branch w path) (o.prune w name)

    unfoldable pub remove_inner : W → Text → Option FilePath → Removed W
    remove_inner w name expected = remove_found w name expected (o.find_worktree w name)

  unfoldable pub remove_verified_recording :
      W → Text → FilePath → Bool → (W → HeadBranch → W × Option Text) → Removed W
  remove_verified_recording w name expected delete_branch note =
      remove_inner delete_branch note w name (some expected)

  unfoldable pub remove_verified : W → Text → FilePath → Bool → Removed W
  remove_verified w name expected delete_branch =
      remove_inner delete_branch (λ v h. (v, none)) w name (some expected)

  unfoldable pub remove_unverified : W → Text → Bool → Removed W
  remove_unverified w name delete_branch = remove_inner delete_branch (λ v h. (v, none)) w name none
