-- ===== src/Removal/Laws/Order.antt =====
-- What a removal did outside, in which order, and what it tells of it.
use gwm_cli.Base.{Bool, List}
use gwm_cli.History.{FilePath}
use gwm_cli.Hooks.Expanding.{HookContext}
use gwm_cli.Removal.Worktrees.{Outside}
use gwm_cli.Removal.Lifecycle.{WorktreeInfo, RemovalEnd, Hooking}
use gwm_cli.Removal.Laws.Traces.{Event}
use gwm_cli.Removal.Laws.Protocol.{Ordered}
use gwm_cli.Removal.Laws.Ends.{Ends}

module _ {W : Type 0} (o : Outside W) (k : Hooking W) (found : WorktreeInfo) (expected : FilePath)
    (delete_branch : Bool) where
  module _ (w : W) where
    abbrev ctx : HookContext
    ctx = k.context w found.path found.branch

    abbrev Traced : (W × List Event) × RemovalEnd → Type 0
    Traced (s, end) = Ordered o k found expected delete_branch w end s.1
