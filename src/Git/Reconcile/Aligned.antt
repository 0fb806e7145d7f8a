-- ===== src/Git/Reconcile/Aligned.antt =====
-- What a reconcile of src/forgemaster/git/internal.py that reaches the mirror brings about.
use forgemaster.Prelude.{
  String, ◌≡◌, refl, Bool, true, false, not, Option, none, some, List, [], ◌∷◌, ◌++◌, All, AllPairs,
  elem, str_eq, eq_iff, arith, Bool-cases, inl, inr, ◌⊎◌, if◌then◌else◌, ap, sym, ◌∙◌, subst,
}
use forgemaster.Git.Sync.{
  no_mirror, compare_now, Refs, ref_of, set_ref, Repository, History, SyncState, synced,
  local_ahead, remote_ahead, diverged, BranchSync, compare_branch, keep_some, compare_all, fetched,
  remote_divergence,
}
use forgemaster.Git.Reconcile.{
  Progress, Loop, going, repo_of, merge_ff, advance, push, reconcile_branch, go_on, each_branch,
  start, of_divergence, reconcile, Action, block, blocked_worktree, push_failed, blocked_diverged,
}
use forgemaster.Git.Reconcile.Kept.{ref_of-set_ref}
use forgemaster.Git.Reconcile.Fits.{FitsIn, compare_all-Fits, ref_of-mirror}
use forgemaster.Git.Reconcile.Steps.{IsStep, reconcile_branch-IsStep}
use forgemaster.Git.Reconcile.Safety.{IsApart, AreDistinct, FitsAll-step, compare_all-IsApart}
use forgemaster.Git.Reconcile.Exact.{IsHistory, Exact, ExactIn, IsThere, compare_all-Exact}

-- A branch is reported as blocked, or it is the same on both sides.
abbrev pub IsSettled : Progress → String → Type 0
IsSettled p b = (elem b p.blocked ≡ true) ⊎ (ref_of b p.repo.locals ≡ ref_of b p.repo.mirror)

-- What was blocked stays so.
abbrev Grows : Progress → Progress → Type 0
Grows p q = (b : String) → elem b p.blocked ≡ true → elem b q.blocked ≡ true

elem-grown : (b x : String) (xs : List String) → elem b xs ≡ true → elem b (xs ++ x ∷ []) ≡ true
elem-grown b x [] h = absurd (cc)
elem-grown b x (y ∷ ys) h = ground (arith, h, elem-grown b x ys)

elem-last : (b : String) (xs : List String) → elem b (xs ++ b ∷ []) ≡ true
elem-last b [] = ground (arith, eq_iff b b)
elem-last b (y ∷ ys) = ground (arith, elem-last b ys)

-- A step that does not raise settles its branch.
pub record Settles (b : String) (p : Progress) (l : Loop) : Type 0 where
  pub after : Progress
  pub goes_on : l ≡ going after
  pub grows : Grows p after
  pub settled : IsSettled after b

blocked-Settles :
    (b : String) (action : Action) (p : Progress) → Settles b p (going (block b action p))
blocked-Settles b action p = record {
  after = block b action p;
  goes_on = refl;
  grows = λ x h. elem-grown x b p.blocked h;
  settled = inl (elem-last b p.blocked);
}

ref_of-set_same : (b sha : String) (refs : Refs) → ref_of b (set_ref b sha refs) ≡ some sha
ref_of-set_same b sha refs = ground (arith, ref_of-set_ref b b sha refs, eq_iff b b)

going-Settles : (b : String) (p q : Progress) → Grows p q → IsSettled q b → Settles b p (going q)
going-Settles b p q g h = record { after = q; goes_on = refl; grows = g; settled = h }

merge_ff-Settles :
    (reach : History) (b old new : String) (p : Progress)
    → ref_of b p.repo.mirror ≡ some new
    → elem old (reach new) ≡ true
    → Settles b p (merge_ff reach b p (some old) (some new))
merge_ff-Settles reach b old new p m h =
    rw h (going-Settles b p _ (λ x k. k) (inr (ref_of-set_same b new p.repo.locals ∙ sym m)))

advance-Settles :
    (reach : History) (b : String) (p : Progress)
    → Exact reach remote_ahead
        (ref_of b p.repo.locals)
        (ref_of b p.repo.tracked)
        (ref_of b p.repo.mirror)
    → Settles b p (advance reach b p)
advance-Settles reach b p (old, new, l, t, m, h) = elim (Bool-cases (elem b p.repo.checked_out)) [
  | inl e ↦ rw e (blocked-Settles b blocked_worktree p)
  | inr e ↦ rw (e, l, t) (merge_ff-Settles reach b old new p m h)
]

push-Settles :
    (ok : Bool) (b sha : String) (p : Progress)
    → ref_of b p.repo.locals ≡ some sha
    → Settles b p (push ok b p)
push-Settles true b sha p h =
    rw h (going-Settles b p _ (λ x k. k) (inr (h ∙ sym (ref_of-set_same b sha p.repo.mirror))))
push-Settles false b sha p h = blocked-Settles b push_failed p

reconcile_branch-Settles :
    (reach : History) (ok : Bool) (b : String) (state : SyncState) (p : Progress)
    → Exact reach state (ref_of b p.repo.locals) (ref_of b p.repo.tracked) (ref_of b p.repo.mirror)
    → Settles b p (reconcile_branch reach ok b state p)
unfolding reconcile_branch
reconcile_branch-Settles reach ok b synced p h = going-Settles b p _ (λ x k. k) (inr h)
reconcile_branch-Settles reach ok b remote_ahead p h = advance-Settles reach b p h
reconcile_branch-Settles reach ok b local_ahead p h = push-Settles ok b h.0 p h.1
reconcile_branch-Settles reach ok b diverged p h = blocked-Settles b blocked_diverged p

-- What the other branches are stays so.
ExactAll-step :
    (reach : History) (b : String) (r r' : Repository) (is : List BranchSync)
    → IsStep reach b r r'
    → All (λ i. str_eq b (BranchSync.branch i) ≡ false) is
    → All (ExactIn reach r) is
    → All (ExactIn reach r') is
ExactAll-step reach b r r' [] s apart h = tt
ExactAll-step reach b r r' (j ∷ js) s apart h = (
  rw (s.same_local j.branch apart.0, s.same_mirror j.branch apart.0, s.same_tracked) h.0,
  ExactAll-step reach b r r' js s apart.1 h.1,
)

str_eq-sym : (a b : String) → str_eq a b ≡ false → str_eq b a ≡ false
str_eq-sym a b h = ground (arith, h, eq_iff a b, eq_iff b a)

apart-sym :
    (b : String) (is : List BranchSync)
    → All (λ i. str_eq b (BranchSync.branch i) ≡ false) is
    → All (λ i. str_eq (BranchSync.branch i) b ≡ false) is
apart-sym b [] h = tt
apart-sym b (i ∷ is) h = (str_eq-sym b i.branch h.0, apart-sym b is h.1)

-- The whole loop: it ends, every branch is settled, and the others are as they were.
record SettlesAll (is : List BranchSync) (p : Progress) (l : Loop) : Type 0 where
  after : Progress
  goes_on : l ≡ going after
  grows : Grows p after
  settled : All (λ i. IsSettled after (BranchSync.branch i)) is
  same :
      (x : String)
      → All (λ i. str_eq (BranchSync.branch i) x ≡ false) is
      → (ref_of x after.repo.locals ≡ ref_of x p.repo.locals)
        × (ref_of x after.repo.mirror ≡ ref_of x p.repo.mirror)

module _ (reach : History) (push_ok : String → Bool) where
  abbrev body : BranchSync → Progress → Loop
  body i = reconcile_branch reach (push_ok i.branch) i.branch i.state

  settled-after :
      (b : String) (p q : Progress)
      → Grows p q
      → (ref_of b q.repo.locals ≡ ref_of b p.repo.locals)
        × (ref_of b q.repo.mirror ≡ ref_of b p.repo.mirror)
      → IsSettled p b
      → IsSettled q b
  settled-after b p q g same (inl h) = inl (g b h)
  settled-after b p q g same (inr h) = inr (same.0 ∙ (h ∙ sym same.1))

  each_branch-Settles :
      (is : List BranchSync) (p : Progress)
      → AllPairs IsApart is
      → All (FitsIn reach p.repo) is
      → All (ExactIn reach p.repo) is
      → SettlesAll is p (each_branch body is p)
  unfolding each_branch
  each_branch-Settles [] p apart fits exact = record {
    after = p;
    goes_on = refl;
    grows = λ x k. k;
    settled = tt;
    same = λ x k. (refl, refl);
  }
  each_branch-Settles (i ∷ is) p apart fits exact =
      let one = reconcile_branch-Settles reach (push_ok i.branch) i.branch i.state p exact.0 in
      let step : IsStep reach i.branch p.repo one.after.repo =
        subst (λ l. IsStep reach i.branch p.repo (repo_of l)) one.goes_on
          (reconcile_branch-IsStep reach (push_ok i.branch) i.branch i.state p fits.0) in
      let rest =
        each_branch-Settles is one.after apart.1
          (FitsAll-step reach i p.repo one.after.repo is step apart.0 fits.1)
          (ExactAll-step reach i.branch p.repo one.after.repo is step apart.0 exact.1) in
      record {
        after = rest.after;
        goes_on = ap (go_on (each_branch body is)) one.goes_on ∙ rest.goes_on;
        grows = λ x k. rest.grows x (one.grows x k);
        settled = (
          settled-after i.branch one.after rest.after rest.grows
              (rest.same i.branch (apart-sym i.branch is apart.0)) one.settled,
          rest.settled,
        );
        same = λ x k.
            (let later = rest.same x k.1 in
              (later.0 ∙ step.same_local x k.0, later.1 ∙ step.same_mirror x k.0));
      }

asked-settled :
    (reach : History) (repo : Repository) (p : Progress) (branches : List String)
    → All (IsThere repo) branches
    → All (λ i. IsSettled p (BranchSync.branch i)) (compare_all reach repo branches)
    → All (IsSettled p) branches
unfolding compare_all
asked-settled reach repo p [] there h = tt
asked-settled reach repo p (b ∷ bs) there h =
    let here =
      reported b there.0.sha (ref_of b repo.tracked) (compare_all reach repo bs)
        (rw there.0.is_local at h) in
    (here.0, asked-settled reach repo p bs there.1 here.1)
  where
    reported :
        (b l : String) (t : Option String) (is : List BranchSync)
        → All
            (λ i. IsSettled p (BranchSync.branch i))
            (keep_some (compare_branch reach b (some l) t) is)
        → IsSettled p b × All (λ i. IsSettled p (BranchSync.branch i)) is
    reported b l none is h = h
    reported b l (some t) is h = h

-- When the mirror answers, the history has no cycles, the branches have distinct names, each is there
-- locally and what is tracked of it is what the mirror has, reconcile does not raise, and each branch is
-- reported as blocked or has the same commit on both sides afterwards.
pub reconcile-IsSettled :
    (reach : History) (push_ok : String → Bool) (branches : List String) (repo : Repository)
    → IsHistory reach
    → repo.has_remote ≡ true
    → AreDistinct branches
    → All (IsThere (fetched repo)) branches
    → (p : Progress) × (reconcile reach true push_ok branches repo ≡ going p)
      × All (IsSettled p) branches
unfolding reconcile remote_divergence
reconcile-IsSettled reach push_ok branches repo history remote distinct there =
    let all =
      each_branch-Settles reach push_ok (compare_all reach (fetched repo) branches)
        (start (fetched repo)) (compare_all-IsApart reach (fetched repo) branches distinct)
        (compare_all-Fits reach (fetched repo) branches
          (λ b. ref_of-mirror reach b repo.mirror repo.tracked))
        (compare_all-Exact reach history (fetched repo) branches there) in
    (
      all.after,
      ap
            (λ has. of_divergence (body reach push_ok) (
              if not has
              then (no_mirror, repo)
              else (compare_now reach branches (fetched repo), fetched repo)))
            remote
          ∙ all.goes_on,
      asked-settled reach (fetched repo) all.after branches there all.settled,
    )
