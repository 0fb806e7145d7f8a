-- ===== src/Git/Sync.antt =====
-- src/forgemaster/git/internal.py: the distance of a repository to its mirror, branch by branch.
--
-- A reference is the commit that it names. The history, that is the commits that can be reached from one,
-- and the outcomes of `git remote get-url` and `git fetch` are git's.
use forgemaster.Prelude.{
  ℕ, String, Bool, true, false, not, ◌&&◌, ◌||◌, Option, none, some, List, [], ◌∷◌, ◌++◌, ◌==◌, any,
  elem, length, select, str_eq, if◌then◌else◌,
}

-- The names and their commits, the value of a name that comes twice being the first.
abbrev pub Refs : Type 0
Refs = List (String × String)

unfoldable pub ref_of : String → Refs → Option String
ref_of b [] = none
ref_of b ((k, sha) ∷ refs) = let rest = ref_of b refs in if str_eq k b then some sha else rest

-- `git branch -f`, or a push, of one branch
unfoldable pub set_ref : String → String → Refs → Refs
set_ref b sha [] = (b, sha) ∷ []
set_ref b sha ((k, old) ∷ refs) =
    let rest = set_ref b sha refs in if str_eq k b then (b, sha) ∷ refs else (k, old) ∷ rest

-- The bare repository and its mirror. `tracked` is refs/remotes/<remote> after the fetch.
pub record Repository : Type 0 where
  pub has_remote : Bool
  pub locals : Refs
  pub tracked : Refs
  pub mirror : Refs
  pub checked_out : List String

abbrev pub History : Type 0
History = String → List String

-- `rev-list --count a..b`: the commits of b that a does not reach
abbrev pub missing : History → String → String → ℕ
missing reach a b = length (select (λ c. not (elem c (reach a))) (reach b))

pub data SyncState : Type 0 where
  synced local_ahead remote_ahead diverged : SyncState

-- `_branch_sync_state`
abbrev pub branch_sync_state : ℕ → ℕ → SyncState
branch_sync_state ahead behind =
    if not (ahead == 0) && not (behind == 0)
    then diverged
    else if not (ahead == 0)
    then local_ahead
    else if not (behind == 0)
    then remote_ahead
    else synced

pub record BranchSync : Type 0 where
  pub branch : String
  pub ahead : ℕ
  pub behind : ℕ
  pub state : SyncState

abbrev pub branch_sync : String → ℕ → ℕ → BranchSync
branch_sync b ahead behind = record {
  branch = b;
  ahead = ahead;
  behind = behind;
  state = branch_sync_state ahead behind;
}

-- One branch: nothing when neither side has it.
abbrev pub compare_branch : History → String → Option String → Option String → Option BranchSync
compare_branch reach b none none = none
compare_branch reach b (some l) (some t) =
    some (branch_sync b (missing reach t l) (missing reach l t))
compare_branch reach b (some l) none = some (branch_sync b (length (reach l)) 0)
compare_branch reach b none (some t) = some (branch_sync b 0 (length (reach t)))

abbrev pub keep_some : Option BranchSync → List BranchSync → List BranchSync
keep_some none rest = rest
keep_some (some s) rest = s ∷ rest

unfoldable pub compare_all : History → Repository → List String → List BranchSync
unfolding ref_of
compare_all reach repo [] = []
compare_all reach repo (b ∷ bs) =
    keep_some (compare_branch reach b (ref_of b repo.locals) (ref_of b repo.tracked))
      (compare_all reach repo bs)

abbrev pub is_state : SyncState → SyncState → Bool
is_state synced synced = true
is_state local_ahead local_ahead = true
is_state remote_ahead remote_ahead = true
is_state diverged diverged = true
is_state _ _ = false

abbrev pub has_state : SyncState → List BranchSync → Bool
has_state s bs = any (λ b. is_state s (BranchSync.state b)) bs

-- `_rollup_sync_state`
unfoldable pub rollup_sync_state : List BranchSync → SyncState
rollup_sync_state bs =
    if has_state diverged bs || (has_state local_ahead bs && has_state remote_ahead bs)
    then diverged
    else if has_state remote_ahead bs
    then remote_ahead
    else if has_state local_ahead bs
    then local_ahead
    else synced

pub data Divergence : Type 0 where
  no_mirror unreachable : Divergence
  compared : List BranchSync → SyncState → Divergence

-- `remote_divergence`: the fetch fails, or it brings the references of the mirror; without `--prune` it
-- leaves the others.
abbrev pub fetched : Repository → Repository
fetched repo = record repo { tracked = repo.mirror ++ repo.tracked }

abbrev pub compare_now : History → List String → Repository → Divergence
compare_now reach branches repo =
    let per = compare_all reach repo branches in compared per (rollup_sync_state per)

unfoldable pub remote_divergence :
    History → Bool → List String → Repository → Divergence × Repository
unfolding compare_all rollup_sync_state
remote_divergence reach fetch_ok branches repo =
    if not repo.has_remote
    then (no_mirror, repo)
    else if fetch_ok
    then (compare_now reach branches (fetched repo), fetched repo)
    else (unreachable, repo)
