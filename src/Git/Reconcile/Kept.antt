-- ===== src/Git/Reconcile/Kept.antt =====
-- The commits that reconcile of src/forgemaster/git/internal.py leaves in reach.

use forgemaster.Prelude.{
  ℕ, String, ◌≡◌, refl, Bool, true, false, not, Option, none, some, List, [], ◌∷◌, ◌==◌, elem,
  length, select, str_eq, eq_iff, arith, Bool-cases, inl, inr, if◌then◌else◌, sym, subst,
}
use forgemaster.Git.Sync.{
  Refs, ref_of, set_ref, History, SyncState, local_ahead, remote_ahead, branch_sync_state,
}

-- The commit can be reached from the reference.
abbrev pub holds : History → String → Option String → Bool
holds reach c none = false
holds reach c (some sha) = elem c (reach sha)

abbrev pub Keeps : History → Option String → Option String → Type 0
Keeps reach old new = (c : String) → holds reach c old ≡ true → holds reach c new ≡ true

-- Every commit that a branch reaches, it reaches afterwards.
abbrev pub AllKept : History → Refs → Refs → Type 0
AllKept reach refs refs' = (b : String) → Keeps reach (ref_of b refs) (ref_of b refs')

pub ref_of-set_ref :
    (x b sha : String) (refs : Refs)
    → ref_of x (set_ref b sha refs) ≡ (if str_eq b x then some sha else ref_of x refs)
unfolding ref_of set_ref
ref_of-set_ref x b sha [] = refl
ref_of-set_ref x b sha ((k, old) ∷ refs) =
    ground (arith, ref_of-set_ref x b sha refs, eq_iff k b, eq_iff k x, eq_iff b x)

pub ref_of-set_other :
    (x b sha : String) (refs : Refs)
    → str_eq b x ≡ false
    → ref_of x (set_ref b sha refs) ≡ ref_of x refs
ref_of-set_other x b sha refs h = ground (arith, ref_of-set_ref x b sha refs, h)

pub set_ref-AllKept :
    (reach : History) (b sha : String) (refs : Refs)
    → Keeps reach (ref_of b refs) (some sha)
    → AllKept reach refs (set_ref b sha refs)
set_ref-AllKept reach b sha refs h x c k = elim (Bool-cases (str_eq b x)) [
  | inl e ↦
      let same : b ≡ x = ground (arith, e, eq_iff b x) in
      let mine : holds reach c (ref_of b refs) ≡ true =
        subst (λ y. holds reach c (ref_of y refs) ≡ true) (sym same) k in
      rw (ref_of-set_ref x b sha refs, e) (h c mine)
  | inr e ↦ rw (ref_of-set_ref x b sha refs, e) k
]

-- What a state promises of the two sides.
abbrev pub Fits : History → SyncState → Option String → Option String → Option String → Type 0
Fits reach remote_ahead l t m = Keeps reach l t
Fits reach local_ahead l t m = Keeps reach m l
Fits reach _ l t m = Unit

pub no_missing :
    (known commits : List String) (c : String)
    → (length (select (λ x. not (elem x known)) commits) == 0) ≡ true
    → elem c commits ≡ true
    → elem c known ≡ true
unfolding select
no_missing known [] c h k = absurd (cc)
no_missing known (x ∷ xs) c h k =
    ground (arith, h, k, no_missing known xs c, eq_iff c x, eq_iff x c)

pub no_length :
    (commits : List String) (c : String)
    → (length commits == 0) ≡ true
    → elem c commits ≡ true
    → true ≡ false
no_length [] c h k = absurd (cc)
no_length (x ∷ xs) c h k = ground (arith, h)

pub branch_sync_state-Fits :
    (reach : History) (l t m : Option String) (ahead behind : ℕ)
    → ((ahead == 0) ≡ true → Keeps reach l t)
    → ((behind == 0) ≡ true → Keeps reach m l)
    → Fits reach (branch_sync_state ahead behind) l t m
branch_sync_state-Fits reach l t m ahead behind ha hb = elim (Bool-cases (ahead == 0)) [
  | inl a ↦ elim (Bool-cases (behind == 0)) [ inl b ↦ rw (a, b) tt | inr b ↦ rw (a, b) (ha a) ]
  | inr a ↦ elim (Bool-cases (behind == 0)) [ inl b ↦ rw (a, b) (hb b) | inr b ↦ rw (a, b) tt ]
]
