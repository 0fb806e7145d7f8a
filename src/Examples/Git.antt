-- ===== src/Examples/Git.antt =====
-- A reconcile of two branches, one on each side ahead, and one that is only on the mirror.
use forgemaster.Prelude.{
  ◌≡◌, refl, String, Bool, true, false, List, [], ◌∷◌, str_eq, if◌then◌else◌, All, elem, Bool-cases,
  inl, inr, arith, eq_iff, sym, ◌∙◌,
}
use forgemaster.Git.Sync.{
  Repository, History, ref_of, fetched, remote_divergence, compared, branch_sync, synced,
}
use forgemaster.Git.Reconcile.{reconcile, repo_of, raised, Loop, Progress, going}
use forgemaster.Git.Reconcile.Exact.{IsHistory, IsThere}
use forgemaster.Git.Reconcile.Aligned.{IsSettled, reconcile-IsSettled}
use forgemaster.Git.Reconcile.Safety.{IsKept, reconcile-IsKept}

-- c2 follows c1.
abbrev reach : History
reach sha = if str_eq sha "c2" then "c2" ∷ ("c1" ∷ []) else sha ∷ []

abbrev repo : Repository
repo = record {
  has_remote = true;
  locals = ("main", "c1") ∷ (("alpha", "c2") ∷ []);
  tracked = [];
  mirror = ("main", "c2") ∷ (("alpha", "c1") ∷ []);
  checked_out = [];
}

abbrev branches : List String
branches = "main" ∷ ("alpha" ∷ [])

reconcile-IsKept_example :
    IsKept reach repo (repo_of (reconcile reach true (λ b. true) branches repo))
reconcile-IsKept_example =
    reconcile-IsKept reach true (λ b. true) branches repo ((refl, tt), (tt, tt))

abbrev both_ahead : Repository
both_ahead = repo_of (reconcile reach true (λ b. true) branches repo)

moves_local : both_ahead.locals ≡ ("main", "c2") ∷ (("alpha", "c2") ∷ [])
unfolding reconcile forgemaster.Prelude.select
moves_local = refl

moves_mirror : both_ahead.mirror ≡ ("main", "c2") ∷ (("alpha", "c2") ∷ [])
unfolding reconcile forgemaster.Prelude.select
moves_mirror = refl

-- A branch that is only on the mirror stops the reconciliation.
abbrev only_remote : Repository
only_remote = record repo { locals = ("main", "c1") ∷ [] }

abbrev is_raised : Loop → Bool
is_raised (raised r) = true
is_raised _ = false

raises_missing :
    is_raised (reconcile reach true (λ b. true) ("alpha" ∷ branches) only_remote) ≡ true
unfolding reconcile forgemaster.Prelude.select
raises_missing = refl

-- A branch that is gone from the mirror still counts as synced.
abbrev gone : Repository
gone = record repo { locals = ("main", "c1") ∷ []; tracked = ("main", "c1") ∷ []; mirror = [] }

counts_synced :
    (remote_divergence reach true ("main" ∷ []) gone).0
    ≡ compared (branch_sync "main" 0 0 ∷ []) synced
unfolding remote_divergence forgemaster.Prelude.select
counts_synced = refl

reach-own : (c : String) → elem c (reach c) ≡ true
reach-own c = elim (Bool-cases (str_eq c "c2")) [
  | inl e ↦ rw e (ground (arith, e, eq_iff c "c2", eq_iff "c2" c))
  | inr e ↦ rw e (ground (arith, eq_iff c c))
]

alone : (a b : String) → elem a (b ∷ []) ≡ true → a ≡ b
alone a b h = ground (arith, h, eq_iff a b, eq_iff b a)

reach-no_cycle : (a b : String) → elem a (reach b) ≡ true → elem b (reach a) ≡ true → a ≡ b
reach-no_cycle a b h k = elim (Bool-cases (str_eq b "c2")) [
  | inr e ↦ alone a b (rw e at h)
  | inl e ↦ elim (Bool-cases (str_eq a "c2")) [
    | inr f ↦ sym (alone b a (rw f at k))
    | inl f ↦
        let is_a : a ≡ "c2" = ground (arith, f, eq_iff a "c2") in
        let is_b : b ≡ "c2" = ground (arith, e, eq_iff b "c2") in is_a ∙ sym is_b
  ]
]

reach-IsHistory : IsHistory reach
reach-IsHistory = record { own = reach-own; no_cycle = reach-no_cycle }

branches-IsThere : All (IsThere (fetched repo)) branches
unfolding ref_of
branches-IsThere = (
  record { sha = "c1"; is_local = refl; is_fresh = refl },
  (record { sha = "c2"; is_local = refl; is_fresh = refl }, tt),
)

reconcile-IsSettled_example :
    (p : Progress) × (reconcile reach true (λ b. true) branches repo ≡ going p)
    × All (IsSettled p) branches
reconcile-IsSettled_example =
    reconcile-IsSettled reach (λ b. true) branches repo reach-IsHistory refl ((refl, tt), (tt, tt))
      branches-IsThere
