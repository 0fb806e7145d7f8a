-- ===== src/Git/Reconcile/Fits.antt =====
-- The states that remote_divergence of src/forgemaster/git/internal.py reports fit the references.
use forgemaster.Prelude.{
  String, ◌≡◌, refl, Option, none, some, List, [], ◌∷◌, ◌++◌, All, length, str_eq, Bool-cases, inl,
  inr,
}
use forgemaster.Git.Sync.{
  Refs, ref_of, Repository, History, BranchSync, compare_branch, keep_some, compare_all, missing,
}
use forgemaster.Git.Reconcile.Kept.{Keeps, Fits, no_missing, no_length, branch_sync_state-Fits}

-- The state of a branch fits the references as they are.
abbrev pub FitsIn : History → Repository → BranchSync → Type 0
FitsIn reach repo i =
    Fits reach i.state (ref_of i.branch repo.locals) (ref_of i.branch repo.tracked)
      (ref_of i.branch repo.mirror)

-- What the mirror has of a branch is fetched.
pub ref_of-mirror :
    (reach : History) (b : String) (refs tracked : Refs)
    → Keeps reach (ref_of b refs) (ref_of b (refs ++ tracked))
unfolding ref_of
ref_of-mirror reach b [] tracked c h = absurd (cc)
ref_of-mirror reach b ((k, sha) ∷ refs) tracked c h = elim (Bool-cases (str_eq k b)) [
  | inl e ↦ rw e (rw e at h)
  | inr e ↦ rw e (ref_of-mirror reach b refs tracked c (rw e at h))
]

-- The comparison of a branch that was just fetched.
compare_branch-Fits :
    (reach : History) (repo : Repository) (b : String) (l t : Option String)
    (rest : List BranchSync)
    → ref_of b repo.locals ≡ l
    → ref_of b repo.tracked ≡ t
    → Keeps reach (ref_of b repo.mirror) t
    → All (FitsIn reach repo) rest
    → All (FitsIn reach repo) (keep_some (compare_branch reach b l t) rest)
compare_branch-Fits reach repo b none none rest el et k h = h
compare_branch-Fits reach repo b (some l) (some t) rest el et k h = (
  rw (el, et)
      (branch_sync_state-Fits reach (some l) (some t) (ref_of b repo.mirror) (missing reach t l)
        (missing reach l t) (λ z c. no_missing (reach t) (reach l) c z)
        (λ z c e. no_missing (reach l) (reach t) c z (k c e))),
  h,
)
compare_branch-Fits reach repo b (some l) none rest el et k h = (
  rw (el, et)
      (branch_sync_state-Fits reach (some l) none (ref_of b repo.mirror) (length (reach l)) 0
        (λ z c e. absurd (let bad = no_length (reach l) c z e in cc))
        (λ z c e. absurd (let bad = k c e in cc))),
  h,
)
compare_branch-Fits reach repo b none (some t) rest el et k h = (
  rw (el, et)
      (branch_sync_state-Fits reach none (some t) (ref_of b repo.mirror) 0 (length (reach t))
        (λ z c e. absurd (cc)) (λ z c e. absurd (let bad = no_length (reach t) c z (k c e) in cc))),
  h,
)

pub compare_all-Fits :
    (reach : History) (repo : Repository) (branches : List String)
    → ((b : String) → Keeps reach (ref_of b repo.mirror) (ref_of b repo.tracked))
    → All (FitsIn reach repo) (compare_all reach repo branches)
unfolding compare_all
compare_all-Fits reach repo [] k = tt
compare_all-Fits reach repo (b ∷ bs) k =
    compare_branch-Fits reach repo b (ref_of b repo.locals) (ref_of b repo.tracked) _ refl refl
      (k b) (compare_all-Fits reach repo bs k)
