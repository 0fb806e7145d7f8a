-- ===== src/Git/Reconcile/Exact.antt =====
-- What the states of remote_divergence (src/forgemaster/git/internal.py) say of a history without cycles.
use forgemaster.Prelude.{
  ℕ, String, ◌≡◌, refl, true, Option, none, some, List, [], ◌∷◌, ◌==◌, All, elem, length,
  Bool-cases, inl, inr, ap,
}
use forgemaster.Git.Sync.{
  ref_of, Repository, History, SyncState, synced, local_ahead, remote_ahead, diverged,
  branch_sync_state, BranchSync, compare_branch, keep_some, compare_all, missing,
}
use forgemaster.Git.Reconcile.Kept.{no_missing, no_length}

-- A commit reaches itself, and no other that reaches it.
pub record IsHistory (reach : History) : Type 0 where
  pub own : (c : String) → elem c (reach c) ≡ true
  pub no_cycle : (a b : String) → elem a (reach b) ≡ true → elem b (reach a) ≡ true → a ≡ b

-- What a state says of the commits of the local branch, the tracked one and the one of the mirror.
abbrev pub Exact : History → SyncState → Option String → Option String → Option String → Type 0
Exact reach synced l t m = l ≡ m
Exact reach remote_ahead l t m =
    (old : String) × (new : String) × (l ≡ some old)
    × (t ≡ some new)
    × (m ≡ some new)
    × (elem old (reach new) ≡ true)
Exact reach local_ahead l t m = (sha : String) × (l ≡ some sha)
Exact reach diverged l t m = Unit

abbrev pub ExactIn : History → Repository → BranchSync → Type 0
ExactIn reach repo i =
    Exact reach i.state (ref_of i.branch repo.locals) (ref_of i.branch repo.tracked)
      (ref_of i.branch repo.mirror)

branch_sync_state-Exact :
    (reach : History) (sha : String) (l t m : Option String) (ahead behind : ℕ)
    → l ≡ some sha
    → ((ahead == 0) ≡ true → (behind == 0) ≡ true → l ≡ m)
    → ((ahead == 0) ≡ true → Exact reach remote_ahead l t m)
    → Exact reach (branch_sync_state ahead behind) l t m
branch_sync_state-Exact reach sha l t m ahead behind h same behind_only =
    elim (Bool-cases (ahead == 0)) [
      | inl a ↦ elim (Bool-cases (behind == 0)) [
        | inl b ↦ rw (a, b) (same a b)
        | inr b ↦ rw (a, b) (behind_only a)
      ]
      | inr a ↦ elim (Bool-cases (behind == 0)) [
        | inl b ↦ rw (a, b) (sha, h)
        | inr b ↦ rw (a, b) tt
      ]
    ]

-- The branch is there, and so is what is tracked of it on the mirror.
pub record IsThere (repo : Repository) (b : String) : Type 0 where
  pub sha : String
  pub is_local : ref_of b repo.locals ≡ some sha
  pub is_fresh : ref_of b repo.mirror ≡ ref_of b repo.tracked

module _ (reach : History) (history : IsHistory reach) where
  compare_branch-Exact :
      (repo : Repository) (b l : String) (t : Option String) (rest : List BranchSync)
      → ref_of b repo.locals ≡ some l
      → ref_of b repo.tracked ≡ t
      → ref_of b repo.mirror ≡ t
      → All (ExactIn reach repo) rest
      → All (ExactIn reach repo) (keep_some (compare_branch reach b (some l) t) rest)
  compare_branch-Exact repo b l (some t) rest el et em h = (
    rw (el, et, em)
        (branch_sync_state-Exact reach l (some l) (some t) (some t) (missing reach t l)
          (missing reach l t) refl
          (λ x y. ap some (
            history.no_cycle l t (no_missing (reach t) (reach l) l x (history.own l))
              (no_missing (reach l) (reach t) t y (history.own t))))
          (λ x. (l, t, refl, refl, refl, no_missing (reach t) (reach l) l x (history.own l)))),
    h,
  )
  compare_branch-Exact repo b l none rest el et em h = (
    rw (el, et, em)
        (branch_sync_state-Exact reach l (some l) none none (length (reach l)) 0 refl
          (λ x y. absurd (let bad = no_length (reach l) l x (history.own l) in cc))
          (λ x. absurd (let bad = no_length (reach l) l x (history.own l) in cc))),
    h,
  )

  pub compare_all-Exact :
      (repo : Repository) (branches : List String)
      → All (IsThere repo) branches
      → All (ExactIn reach repo) (compare_all reach repo branches)
  unfolding compare_all
  compare_all-Exact repo [] there = tt
  compare_all-Exact repo (b ∷ bs) there = rw there.0.is_local (
      compare_branch-Exact repo b there.0.sha (ref_of b repo.tracked) _ there.0.is_local refl
        there.0.is_fresh (compare_all-Exact repo bs there.1))
