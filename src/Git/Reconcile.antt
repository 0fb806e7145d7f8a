-- ===== src/Git/Reconcile.antt =====
-- src/forgemaster/git/internal.py: reconcile and sync_tracking, which move the branches forward.
--
-- `push_ok` is the outcome of `git push` of one branch. A reference that is missing makes `feature_sha`
-- raise GitOpError, and a merge that is no fast-forward makes `merge_ff` raise it.
pub mod Kept
pub mod Fits
pub mod Steps
pub mod Safety
pub mod Exact
pub mod Aligned
use forgemaster.Prelude.{
  String, Bool, true, false, ◌||◌, Option, none, some, List, [], ◌∷◌, ◌++◌, elem, if◌then◌else◌,
}
use forgemaster.Git.Sync.{
  ref_of, set_ref, Repository, History, SyncState, synced, local_ahead, remote_ahead, diverged,
  BranchSync, Divergence, no_mirror, unreachable, compared, remote_divergence,
}

pub data Action : Type 0 where
  already_synced pushed push_failed local_ahead_skipped blocked_worktree blocked_diverged : Action
  fast_forward : String → String → Action

-- The locals of the loop.
pub record Progress : Type 0 where
  pub repo : Repository
  pub actions : List (String × Action)
  pub changed : Bool
  pub blocked : List String

pub data Loop : Type 0 where
  going : Progress → Loop
  raised : Repository → Loop

abbrev pub note_action : String → Action → Progress → Progress
note_action b action p = record p { actions = p.actions ++ (b, action) ∷ [] }

abbrev pub block : String → Action → Progress → Progress
block b action p = record (note_action b action p) { blocked = p.blocked ++ b ∷ [] }

-- `merge_ff` of the branch onto its tracked reference: the branch must be an ancestor.
abbrev pub merge_ff : History → String → Progress → Option String → Option String → Loop
merge_ff reach b p (some old) (some new) =
    if elem old (reach new)
    then going (record (note_action b (fast_forward old new) p) {
      repo = record p.repo { locals = set_ref b new p.repo.locals };
      changed = true;
    })
    else raised p.repo
merge_ff reach b p _ _ = raised p.repo

-- the branch of `remote_ahead`
abbrev pub advance : History → String → Progress → Loop
advance reach b p =
    if elem b p.repo.checked_out
    then going (block b blocked_worktree p)
    else merge_ff reach b p (ref_of b p.repo.locals) (ref_of b p.repo.tracked)

abbrev pub pushed_ref : String → Option String → Repository → Repository
pushed_ref b none repo = repo
pushed_ref b (some sha) repo = record repo { mirror = set_ref b sha repo.mirror }

-- the branch of `local_ahead`
abbrev pub push : Bool → String → Progress → Loop
push ok b p =
    if ok
    then going (record (note_action b pushed p) {
      repo = pushed_ref b (ref_of b p.repo.locals) p.repo;
      changed = true;
    })
    else going (block b push_failed p)

unfoldable pub reconcile_branch : History → Bool → String → SyncState → Progress → Loop
unfolding ref_of set_ref
reconcile_branch reach ok b synced p = going (note_action b already_synced p)
reconcile_branch reach ok b remote_ahead p = advance reach b p
reconcile_branch reach ok b local_ahead p = push ok b p
reconcile_branch reach ok b diverged p = going (block b blocked_diverged p)

unfoldable pub track_branch : History → String → SyncState → Progress → Loop
unfolding ref_of set_ref
track_branch reach b synced p = going (note_action b already_synced p)
track_branch reach b remote_ahead p = advance reach b p
track_branch reach b local_ahead p = going (note_action b local_ahead_skipped p)
track_branch reach b diverged p = going (block b blocked_diverged p)

-- `for b, info in div["branches"].items()`, with the body of the loop
abbrev pub go_on : (Progress → Loop) → Loop → Loop
go_on next (going p) = next p
go_on next (raised repo) = raised repo

unfoldable pub each_branch : (BranchSync → Progress → Loop) → List BranchSync → Progress → Loop
each_branch body [] p = going p
each_branch body (i ∷ is) p = go_on (each_branch body is) (body i p)

abbrev pub start : Repository → Progress
start repo = record { repo = repo; actions = []; changed = false; blocked = [] }

abbrev pub of_divergence : (BranchSync → Progress → Loop) → Divergence × Repository → Loop
of_divergence body (no_mirror, repo) = going (start repo)
of_divergence body (unreachable, repo) = going (start repo)
of_divergence body (compared per state, repo) = each_branch body per (start repo)

unfoldable pub reconcile : History → Bool → (String → Bool) → List String → Repository → Loop
unfolding remote_divergence reconcile_branch each_branch
reconcile reach fetch_ok push_ok branches repo =
    of_divergence (λ i. reconcile_branch reach (push_ok i.branch) i.branch i.state)
      (remote_divergence reach fetch_ok branches repo)

-- `sync_tracking`, whose refspec of fetch is in place
unfoldable pub sync_tracking : History → Bool → List String → Repository → Loop
unfolding remote_divergence track_branch each_branch
sync_tracking reach fetch_ok branches repo =
    of_divergence (λ i. track_branch reach i.branch i.state)
      (remote_divergence reach fetch_ok branches repo)

abbrev pub repo_of : Loop → Repository
repo_of (going p) = p.repo
repo_of (raised repo) = repo
