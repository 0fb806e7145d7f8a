-- ===== src/Projects/Authority.antt =====
-- src/forgemaster/projects/authority.py: where the work of each project is.
--
-- What git says of a worktree and of the mirror is an argument, and so is its raising an exception.
use forgemaster.Prelude.{
  String, Bool, true, false, Option, none, some, List, [], ◌∷◌, select, ℕ, zero, suc,
}
use forgemaster.Git.Sync.{
  SyncState, synced, local_ahead, remote_ahead, diverged, Divergence, no_mirror, unreachable,
  compared,
}

pub data WorkState : Type 0 where
  missing uncommitted not_reached no_remote unpushed clean_pushed : WorkState

pub record Verdict : Type 0 where
  pub slug : String
  pub state : WorkState

-- A worktree with the answer of `git.status`: the number of its files, nothing when it raises.
pub record Worktree : Type 0 where
  pub name : String
  pub status : Option ℕ

-- A project with the worktrees that its directory has, and the answer of `git.remote_divergence`.
pub record ProjectDisk : Type 0 where
  pub slug : String
  pub has_sot : Bool
  pub worktrees : List Worktree
  pub divergence : Option Divergence

-- `not status["clean"]`; what git refuses to read counts as dirty.
abbrev pub dirty_status : Option ℕ → Bool
dirty_status none = true
dirty_status (some zero) = false
dirty_status (some (suc n)) = true

-- `_dirty_worktrees`
unfoldable pub dirty_worktrees : List Worktree → List Worktree
unfolding select
dirty_worktrees worktrees = select (λ w. dirty_status (Worktree.status w)) worktrees

-- `_FROM_DIVERGENCE`
abbrev pub from_sync : SyncState → WorkState
from_sync synced = clean_pushed
from_sync local_ahead = unpushed
from_sync remote_ahead = clean_pushed
from_sync diverged = unpushed

abbrev pub from_divergence : Option Divergence → WorkState
from_divergence none = not_reached
from_divergence (some no_mirror) = no_remote
from_divergence (some unreachable) = not_reached
from_divergence (some (compared per state)) = from_sync state

abbrev pub work_state : Bool → List Worktree → Option Divergence → WorkState
work_state false dirty div = missing
work_state true (w ∷ ws) div = uncommitted
work_state true [] div = from_divergence div

-- `_verdict`
unfoldable pub verdict : ProjectDisk → Verdict
unfolding dirty_worktrees
verdict p = record {
  slug = p.slug;
  state = work_state p.has_sot (dirty_worktrees p.worktrees) p.divergence;
}

unfoldable pub survey : List ProjectDisk → List Verdict
unfolding verdict
survey [] = []
survey (p ∷ ps) = verdict p ∷ survey ps

abbrev pub is_blocking : WorkState → Bool
is_blocking uncommitted = true
is_blocking _ = false

-- `blocking`
unfoldable pub blocking : List Verdict → List Verdict
unfolding select
blocking verdicts = select (λ v. is_blocking (Verdict.state v)) verdicts
