-- ===== src/Update/Apply/Back.antt =====
-- How `apply` of src/forgemaster/apply_update.py leaves the instance, ending by ending.
use forgemaster.Prelude.{ℕ, ◌≡◌, refl, String, Bool, true, false, Bool-cases, inl, inr}
use forgemaster.Update.Apply.{
  Identity, Instance, Outside, Attempt, Try, gives, fails, raises, stop, start, swap, repose_maps,
  verify_live, Origin, guarding, building, probing, snapshotting, swapping, restoring, purging,
  Result, returned, raised, back_restored, way_back, after_swap, apply_stopped, apply_probed,
  apply_built, apply,
}

-- The gestures of `apply` that come while the service is started.
abbrev pub is_live : Origin → Bool
is_live guarding = true
is_live building = true
is_live probing = true
is_live snapshotting = false
is_live swapping = false
is_live restoring = false
is_live purging = true

abbrev pub IsServed : Result → Type 0
IsServed (returned e s) = s.is_started ≡ true
IsServed (raised g s) = s.is_started ≡ is_live g

back_restored-IsServed :
    (o : Outside) (old blue : String) (snapshot : ℕ) (a : Try) (s : Instance)
    → s.is_started ≡ false
    → IsServed (back_restored o old blue snapshot a s)
back_restored-IsServed o old blue snapshot (gives u) s h = refl
back_restored-IsServed o old blue snapshot raises s h = h
back_restored-IsServed o old blue snapshot fails s h = elim (Bool-cases o.swaps_again) [
  | inl e ↦ simp e refl
  | inr e ↦ simp e h
]

way_back-IsServed :
    (o : Outside) (old blue : String) (snapshot : ℕ) (s : Instance)
    → IsServed (way_back o old blue snapshot s)
way_back-IsServed o old blue snapshot s = elim (Bool-cases o.swaps_back) [
  | inr e ↦ simp e refl
  | inl e ↦ simp e (
      back_restored-IsServed o old blue snapshot (o.restores old snapshot) (swap old (stop s)) refl)
]

after_swap-IsServed :
    (o : Outside) (expected : Identity) (old blue : String) (snapshot : ℕ) (s : Instance)
    → IsServed (after_swap o expected old blue snapshot s)
after_swap-IsServed o expected old blue snapshot s =
    let live = repose_maps o blue (start o (swap blue s)) in
    elim (Bool-cases (verify_live o expected live)) [
      | inr e ↦ simp e (way_back-IsServed o old blue snapshot live)
      | inl e ↦ elim (Bool-cases o.purges) [ inl p ↦ simp (e, p) refl | inr p ↦ simp (e, p) refl ]
    ]

apply_stopped-IsServed :
    (o : Outside) (expected : Identity) (blue : String) (a : Try) (s : Instance)
    → s.is_started ≡ false
    → IsServed (apply_stopped o expected blue a s)
apply_stopped-IsServed o expected blue fails s h = refl
apply_stopped-IsServed o expected blue raises s h = h
apply_stopped-IsServed o expected blue (gives u) s h = elim (Bool-cases o.swaps) [
  | inr e ↦ simp e h
  | inl e ↦ simp e (after_swap-IsServed o expected s.link blue s.data_state s)
]

apply_probed-IsServed :
    (o : Outside) (blue : String) (p : Attempt Identity) (s : Instance)
    → s.is_started ≡ true
    → IsServed (apply_probed o blue p s)
apply_probed-IsServed o blue fails s h = h
apply_probed-IsServed o blue raises s h = h
apply_probed-IsServed o blue (gives expected) s h =
    apply_stopped-IsServed o expected blue o.snapshot (stop s) refl

apply_built-IsServed :
    (o : Outside) (blue : String) (a : Try) (s : Instance)
    → s.is_started ≡ true
    → IsServed (apply_built o blue a s)
apply_built-IsServed o blue fails s h = h
apply_built-IsServed o blue raises s h = h
apply_built-IsServed o blue (gives u) s h = apply_probed-IsServed o blue (o.probe blue) s h

-- An update of an instance whose service is started leaves it started when it returns, refused, done or
-- taken back, and when the build, the isolated probe or the purge raises; it leaves it stopped exactly when
-- the cold snapshot, a swap of the link or the restore raises.
pub apply-IsServed :
    (o : Outside) (blue : String) (s : Instance) → s.is_started ≡ true → IsServed (apply o blue s)
unfolding apply
apply-IsServed o blue s h = apply_built-IsServed o blue o.builds s h
