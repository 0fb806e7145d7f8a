-- ===== src/Git/Reconcile/Steps.antt =====
-- What one round of reconcile and of sync_tracking keeps (src/forgemaster/git/internal.py).
use forgemaster.Prelude.{
  String, ◌≡◌, refl, Bool, true, false, Option, none, some, elem, str_eq, Bool-cases, inl, inr,
}
use forgemaster.Git.Sync.{
  ref_of, Repository, History, SyncState, synced, local_ahead, remote_ahead, diverged,
}
use forgemaster.Git.Reconcile.{
  Progress, repo_of, merge_ff, advance, push, pushed_ref, reconcile_branch, track_branch,
}
use forgemaster.Git.Reconcile.Kept.{Keeps, AllKept, ref_of-set_other, set_ref-AllKept, Fits}

-- What a step over one branch keeps: every commit, and the references of the others.
pub record IsStep (reach : History) (b : String) (r r' : Repository) : Type 0 where
  pub locals_kept : AllKept reach r.locals r'.locals
  pub mirror_kept : AllKept reach r.mirror r'.mirror
  pub same_local : (x : String) → str_eq b x ≡ false → ref_of x r'.locals ≡ ref_of x r.locals
  pub same_mirror : (x : String) → str_eq b x ≡ false → ref_of x r'.mirror ≡ ref_of x r.mirror
  pub same_tracked : r'.tracked ≡ r.tracked

stays : (reach : History) (b : String) (r : Repository) → IsStep reach b r r
stays reach b r = record {
  locals_kept = λ x c h. h;
  mirror_kept = λ x c h. h;
  same_local = λ x h. refl;
  same_mirror = λ x h. refl;
  same_tracked = refl;
}

merge_ff-IsStep :
    (reach : History) (b : String) (p : Progress) (l t : Option String)
    → ref_of b p.repo.locals ≡ l
    → Keeps reach l t
    → IsStep reach b p.repo (repo_of (merge_ff reach b p l t))
merge_ff-IsStep reach b p none t e h = stays reach b p.repo
merge_ff-IsStep reach b p (some l) none e h = stays reach b p.repo
merge_ff-IsStep reach b p (some l) (some t) e h = elim (Bool-cases (elem l (reach t))) [
  | inr k ↦ rw k (stays reach b p.repo)
  | inl k ↦ rw k (record {
    locals_kept = set_ref-AllKept reach b t p.repo.locals (rw e h);
    mirror_kept = λ x c g. g;
    same_local = λ x g. ref_of-set_other x b t p.repo.locals g;
    same_mirror = λ x g. refl;
    same_tracked = refl;
  })
]

advance-IsStep :
    (reach : History) (b : String) (p : Progress)
    → Keeps reach (ref_of b p.repo.locals) (ref_of b p.repo.tracked)
    → IsStep reach b p.repo (repo_of (advance reach b p))
advance-IsStep reach b p h = elim (Bool-cases (elem b p.repo.checked_out)) [
  | inl e ↦ rw e (stays reach b p.repo)
  | inr e ↦
      rw e (merge_ff-IsStep reach b p (ref_of b p.repo.locals) (ref_of b p.repo.tracked) refl h)
]

pushed_ref-IsStep :
    (reach : History) (b : String) (repo : Repository) (l : Option String)
    → Keeps reach (ref_of b repo.mirror) l
    → IsStep reach b repo (pushed_ref b l repo)
pushed_ref-IsStep reach b repo none h = stays reach b repo
pushed_ref-IsStep reach b repo (some sha) h = record {
  locals_kept = λ x c g. g;
  mirror_kept = set_ref-AllKept reach b sha repo.mirror h;
  same_local = λ x g. refl;
  same_mirror = λ x g. ref_of-set_other x b sha repo.mirror g;
  same_tracked = refl;
}

push-IsStep :
    (reach : History) (ok : Bool) (b : String) (p : Progress)
    → Keeps reach (ref_of b p.repo.mirror) (ref_of b p.repo.locals)
    → IsStep reach b p.repo (repo_of (push ok b p))
push-IsStep reach true b p h = pushed_ref-IsStep reach b p.repo (ref_of b p.repo.locals) h
push-IsStep reach false b p h = stays reach b p.repo

pub reconcile_branch-IsStep :
    (reach : History) (ok : Bool) (b : String) (state : SyncState) (p : Progress)
    → Fits reach state (ref_of b p.repo.locals) (ref_of b p.repo.tracked) (ref_of b p.repo.mirror)
    → IsStep reach b p.repo (repo_of (reconcile_branch reach ok b state p))
unfolding reconcile_branch
reconcile_branch-IsStep reach ok b synced p h = stays reach b p.repo
reconcile_branch-IsStep reach ok b remote_ahead p h = advance-IsStep reach b p h
reconcile_branch-IsStep reach ok b local_ahead p h = push-IsStep reach ok b p h
reconcile_branch-IsStep reach ok b diverged p h = stays reach b p.repo

pub track_branch-IsStep :
    (reach : History) (b : String) (state : SyncState) (p : Progress)
    → Fits reach state (ref_of b p.repo.locals) (ref_of b p.repo.tracked) (ref_of b p.repo.mirror)
    → IsStep reach b p.repo (repo_of (track_branch reach b state p))
unfolding track_branch
track_branch-IsStep reach b synced p h = stays reach b p.repo
track_branch-IsStep reach b remote_ahead p h = advance-IsStep reach b p h
track_branch-IsStep reach b local_ahead p h = stays reach b p.repo
track_branch-IsStep reach b diverged p h = stays reach b p.repo
