-- ===== src/Git/Reconcile/Safety.antt =====
-- No commit is lost by reconcile and sync_tracking of src/forgemaster/git/internal.py.
use forgemaster.Prelude.{
  String, ◌≡◌, Bool, true, false, not, Option, none, some, List, [], ◌∷◌, All, AllPairs, str_eq,
  if◌then◌else◌,
}
use forgemaster.Git.Sync.{
  ref_of, Repository, History, BranchSync, compare_branch, keep_some, compare_all, fetched,
  compare_now, no_mirror, unreachable, remote_divergence,
}
use forgemaster.Git.Reconcile.{
  Progress, Loop, going, raised, repo_of, reconcile_branch, track_branch, go_on, each_branch, start,
  of_divergence, reconcile, sync_tracking,
}
use forgemaster.Git.Reconcile.Kept.{AllKept}
use forgemaster.Git.Reconcile.Fits.{FitsIn, compare_all-Fits, ref_of-mirror}
use forgemaster.Git.Reconcile.Steps.{IsStep, reconcile_branch-IsStep, track_branch-IsStep}

-- Two runs of the loop speak of two branches.
abbrev pub IsApart : BranchSync → BranchSync → Type 0
IsApart i j = str_eq i.branch j.branch ≡ false

-- What is known of the other branches stays known.
pub FitsAll-step :
    (reach : History) (i : BranchSync) (r r' : Repository) (is : List BranchSync)
    → IsStep reach i.branch r r'
    → All (IsApart i) is
    → All (FitsIn reach r) is
    → All (FitsIn reach r') is
FitsAll-step reach i r r' [] s apart h = tt
FitsAll-step reach i r r' (j ∷ js) s apart h = (
  rw (s.same_local j.branch apart.0, s.same_mirror j.branch apart.0, s.same_tracked) h.0,
  FitsAll-step reach i r r' js s apart.1 h.1,
)

-- The commits of both sides.
pub record IsKept (reach : History) (r r' : Repository) : Type 0 where
  pub locals_kept : AllKept reach r.locals r'.locals
  pub mirror_kept : AllKept reach r.mirror r'.mirror

module _ (reach : History) (body : BranchSync → Progress → Loop)
    (step : (i : BranchSync) (p : Progress)
      → FitsIn reach p.repo i
      → IsStep reach i.branch p.repo (repo_of (body i p))) where
  go_on-IsKept :
      (i : BranchSync) (is : List BranchSync) (p : Progress) (l : Loop)
      → IsStep reach i.branch p.repo (repo_of l)
      → ((q : Progress)
          → IsStep reach i.branch p.repo q.repo
          → IsKept reach q.repo (repo_of (each_branch body is q)))
      → IsKept reach p.repo (repo_of (go_on (each_branch body is) l))
  go_on-IsKept i is p (raised repo) s rest = record {
    locals_kept = s.locals_kept;
    mirror_kept = s.mirror_kept;
  }
  go_on-IsKept i is p (going q) s rest = record {
    locals_kept = λ b c k. (rest q s).locals_kept b c (s.locals_kept b c k);
    mirror_kept = λ b c k. (rest q s).mirror_kept b c (s.mirror_kept b c k);
  }

  each_branch-IsKept :
      (is : List BranchSync) (p : Progress)
      → AllPairs IsApart is
      → All (FitsIn reach p.repo) is
      → IsKept reach p.repo (repo_of (each_branch body is p))
  unfolding each_branch
  each_branch-IsKept [] p apart h = record { locals_kept = λ b c k. k; mirror_kept = λ b c k. k }
  each_branch-IsKept (i ∷ is) p apart h =
      go_on-IsKept i is p (body i p) (step i p h.0) (λ q s.
        each_branch-IsKept is q apart.1 (FitsAll-step reach i p.repo q.repo is s apart.0 h.1))

-- The branches that are compared are those that are asked for.
compare_branch-apart :
    (reach : History) (b x : String) (l t : Option String) (is : List BranchSync)
    → str_eq x b ≡ false
    → All (λ i. str_eq x (BranchSync.branch i) ≡ false) is
    → All (λ i. str_eq x (BranchSync.branch i) ≡ false) (keep_some (compare_branch reach b l t) is)
compare_branch-apart reach b x none none is e h = h
compare_branch-apart reach b x (some l) (some t) is e h = (e, h)
compare_branch-apart reach b x (some l) none is e h = (e, h)
compare_branch-apart reach b x none (some t) is e h = (e, h)

compare_all-apart :
    (reach : History) (repo : Repository) (x : String) (branches : List String)
    → All (λ b. str_eq x b ≡ false) branches
    → All (λ i. str_eq x (BranchSync.branch i) ≡ false) (compare_all reach repo branches)
unfolding compare_all
compare_all-apart reach repo x [] h = tt
compare_all-apart reach repo x (b ∷ bs) h =
    compare_branch-apart reach b x (ref_of b repo.locals) (ref_of b repo.tracked) _ h.0
      (compare_all-apart reach repo x bs h.1)

compare_branch-IsApart :
    (reach : History) (b : String) (l t : Option String) (is : List BranchSync)
    → All (λ i. str_eq b (BranchSync.branch i) ≡ false) is
    → AllPairs IsApart is
    → AllPairs IsApart (keep_some (compare_branch reach b l t) is)
compare_branch-IsApart reach b none none is e h = h
compare_branch-IsApart reach b (some l) (some t) is e h = (e, h)
compare_branch-IsApart reach b (some l) none is e h = (e, h)
compare_branch-IsApart reach b none (some t) is e h = (e, h)

-- The names of the branches are distinct.
abbrev pub AreDistinct : List String → Type 0
AreDistinct = AllPairs (λ a b. str_eq a b ≡ false)

pub compare_all-IsApart :
    (reach : History) (repo : Repository) (branches : List String)
    → AreDistinct branches
    → AllPairs IsApart (compare_all reach repo branches)
unfolding compare_all
compare_all-IsApart reach repo [] h = tt
compare_all-IsApart reach repo (b ∷ bs) h =
    compare_branch-IsApart reach b (ref_of b repo.locals) (ref_of b repo.tracked) _
      (compare_all-apart reach repo b bs h.0) (compare_all-IsApart reach repo bs h.1)

module _ (reach : History) (body : BranchSync → Progress → Loop)
    (step : (i : BranchSync) (p : Progress)
      → FitsIn reach p.repo i
      → IsStep reach i.branch p.repo (repo_of (body i p))) where
  by_outcome-IsKept :
      (has_remote fetch_ok : Bool) (branches : List String) (repo : Repository)
      → AreDistinct branches
      → IsKept reach repo (
          repo_of (
            of_divergence body (
              if not has_remote
              then (no_mirror, repo)
              else if fetch_ok
              then (compare_now reach branches (fetched repo), fetched repo)
              else (unreachable, repo))))
  by_outcome-IsKept false fetch_ok branches repo h = record {
    locals_kept = λ b c k. k;
    mirror_kept = λ b c k. k;
  }
  by_outcome-IsKept true false branches repo h = record {
    locals_kept = λ b c k. k;
    mirror_kept = λ b c k. k;
  }
  by_outcome-IsKept true true branches repo h =
      let run =
        each_branch-IsKept reach body step (compare_all reach (fetched repo) branches)
          (start (fetched repo)) (compare_all-IsApart reach (fetched repo) branches h)
          (compare_all-Fits reach (fetched repo) branches
            (λ b. ref_of-mirror reach b repo.mirror repo.tracked)) in
      record { locals_kept = run.locals_kept; mirror_kept = run.mirror_kept }

  of_divergence-IsKept :
      (fetch_ok : Bool) (branches : List String) (repo : Repository)
      → AreDistinct branches
      → IsKept reach repo
          (repo_of (of_divergence body (remote_divergence reach fetch_ok branches repo)))
  unfolding remote_divergence
  of_divergence-IsKept fetch_ok branches repo h =
      by_outcome-IsKept repo.has_remote fetch_ok branches repo h

-- Whatever the outcomes of the fetch and of each push, and also when it raises halfway, reconcile of
-- branches with distinct names leaves every commit that a local branch or a branch of the mirror reached
-- reachable from it.
pub reconcile-IsKept :
    (reach : History) (fetch_ok : Bool) (push_ok : String → Bool) (branches : List String)
    (repo : Repository)
    → AreDistinct branches
    → IsKept reach repo (repo_of (reconcile reach fetch_ok push_ok branches repo))
unfolding reconcile
reconcile-IsKept reach fetch_ok push_ok branches repo h =
    of_divergence-IsKept reach (λ i. reconcile_branch reach (push_ok i.branch) i.branch i.state)
      (λ i p. reconcile_branch-IsStep reach (push_ok i.branch) i.branch i.state p) fetch_ok branches
      repo h

sync_tracking-IsKept :
    (reach : History) (fetch_ok : Bool) (branches : List String) (repo : Repository)
    → AreDistinct branches
    → IsKept reach repo (repo_of (sync_tracking reach fetch_ok branches repo))
unfolding sync_tracking
sync_tracking-IsKept reach fetch_ok branches repo h =
    of_divergence-IsKept reach (λ i. track_branch reach i.branch i.state)
      (λ i p. track_branch-IsStep reach i.branch i.state p) fetch_ok branches repo h
