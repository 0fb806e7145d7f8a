-- ===== src/Update/Apply/Readable.antt =====
-- `apply` and `rollback` of src/forgemaster/apply_update.py: the environment linked and the data it finds.
--
-- A state of the data has the schema of its database, 0 without one; an environment has a level, the
-- highest schema that it reads.
use forgemaster.Prelude.{
  ℕ, ◌≤◌, ◌≡◌, ◌⊎◌, String, ◌&&◌, Bool-cases, inl, inr, arith, ltb, if◌then◌else◌, refl,
}
use forgemaster.Update.Apply.{
  Identity, Instance, Outside, Attempt, Try, gives, fails, raises, stop, start, swap, repose_maps,
  put_back, verify_live, Result, returned, raised, back_restored, way_back, after_swap,
  apply_stopped, apply_probed, apply_built, apply, undo_restored, undo, rollback_restored,
  rollback_stopped, rollback_probed, rollback_guarded, rollback,
}

-- What is relied on: a start migrates the data forward only, up to the level of the environment, and a
-- restore that fails leaves the data, no database any more, or the data of the snapshot.
pub record IsSound (o : Outside) (schema : ℕ → ℕ) (level : String → ℕ) : Type 0 where
  pub boot_migrates :
      (v : String) (d : ℕ)
      → schema (o.boot v d) ≡ (if ltb (schema d) (level v) then level v else schema d)
  pub spoilt_partly :
      (d snapshot : ℕ)
      → (o.spoilt d snapshot ≡ d)
        ⊎ ((schema (o.spoilt d snapshot) ≡ 0) ⊎ (o.spoilt d snapshot ≡ snapshot))

module _ (schema : ℕ → ℕ) (level : String → ℕ) where
  -- The linked environment reads the data.
  abbrev pub Reads : Instance → Type 0
  Reads s = schema s.data_state ≤ level s.link

  -- A gesture that returns leaves a link that reads the data; an exception says nothing.
  abbrev pub Coherent : Result → Type 0
  Coherent (returned e s) = Reads s
  Coherent (raised g s) = Unit

  boot_level :
      (o : Outside) (v : String) (d : ℕ)
      → IsSound o schema level
      → schema d ≤ level v
      → schema (o.boot v d) ≤ level v
  boot_level o v d ok h = ground (arith, ok.boot_migrates v d)

  spoilt_level :
      (o : Outside) (d snapshot n : ℕ)
      → IsSound o schema level
      → schema d ≤ n
      → schema snapshot ≤ n
      → schema (o.spoilt d snapshot) ≤ n
  spoilt_level o d snapshot n ok h k = elim (ok.spoilt_partly d snapshot) [
    | inl e ↦ rw e h
    | inr r ↦ elim r [ inl e ↦ omega arith | inr e ↦ rw e k ]
  ]

  back_restored-Coherent :
      (o : Outside) (old blue : String) (snapshot : ℕ) (a : Try) (s : Instance)
      → IsSound o schema level
      → s.link ≡ old
      → schema snapshot ≤ level old
      → level old ≤ level blue
      → schema s.data_state ≤ level blue
      → Coherent (back_restored o old blue snapshot a s)
  back_restored-Coherent o old blue snapshot (gives u) s ok l h up k =
      boot_level o s.link snapshot ok (rw l h)
  back_restored-Coherent o old blue snapshot raises s ok l h up k = tt
  back_restored-Coherent o old blue snapshot fails s ok l h up k = elim (Bool-cases o.swaps_again) [
    | inr e ↦ simp e tt
    | inl e ↦
        let left = spoilt_level o s.data_state snapshot (level blue) ok k (omega arith) in
        simp e (boot_level o blue (o.spoilt s.data_state snapshot) ok left)
  ]

  way_back-Coherent :
      (o : Outside) (old blue : String) (snapshot : ℕ) (s : Instance)
      → IsSound o schema level
      → schema snapshot ≤ level old
      → level old ≤ level blue
      → schema s.data_state ≤ level blue
      → Coherent (way_back o old blue snapshot s)
  way_back-Coherent o old blue snapshot s ok h up k = elim (Bool-cases o.swaps_back) [
    | inr e ↦ simp e tt
    | inl e ↦ simp e (
        back_restored-Coherent o old blue snapshot (o.restores old snapshot) (swap old (stop s)) ok
          refl h up k)
  ]

  after_swap-Coherent :
      (o : Outside) (expected : Identity) (old blue : String) (s : Instance)
      → IsSound o schema level
      → schema s.data_state ≤ level old
      → level old ≤ level blue
      → Coherent (after_swap o expected old blue s.data_state s)
  after_swap-Coherent o expected old blue s ok h up =
      let live = repose_maps o blue (start o (swap blue s)) in
      let migrated = boot_level o blue s.data_state ok (omega arith) in
      elim (Bool-cases (verify_live o expected live)) [
        | inr e ↦ simp e (way_back-Coherent o old blue s.data_state live ok h up migrated)
        | inl e ↦ elim (Bool-cases o.purges) [
          | inl p ↦ simp (e, p) migrated
          | inr p ↦ simp (e, p) tt
        ]
      ]

  apply_stopped-Coherent :
      (o : Outside) (expected : Identity) (blue : String) (a : Try) (s : Instance)
      → IsSound o schema level
      → Reads s
      → level s.link ≤ level blue
      → Coherent (apply_stopped o expected blue a s)
  apply_stopped-Coherent o expected blue fails s ok h up = boot_level o s.link s.data_state ok h
  apply_stopped-Coherent o expected blue raises s ok h up = tt
  apply_stopped-Coherent o expected blue (gives u) s ok h up = elim (Bool-cases o.swaps) [
    | inr e ↦ simp e tt
    | inl e ↦ simp e (after_swap-Coherent o expected s.link blue s ok h up)
  ]

  apply_probed-Coherent :
      (o : Outside) (blue : String) (p : Attempt Identity) (s : Instance)
      → IsSound o schema level
      → Reads s
      → level s.link ≤ level blue
      → Coherent (apply_probed o blue p s)
  apply_probed-Coherent o blue fails s ok h up = h
  apply_probed-Coherent o blue raises s ok h up = tt
  apply_probed-Coherent o blue (gives expected) s ok h up =
      apply_stopped-Coherent o expected blue o.snapshot (stop s) ok h up

  apply_built-Coherent :
      (o : Outside) (blue : String) (a : Try) (s : Instance)
      → IsSound o schema level
      → Reads s
      → level s.link ≤ level blue
      → Coherent (apply_built o blue a s)
  apply_built-Coherent o blue fails s ok h up = h
  apply_built-Coherent o blue raises s ok h up = tt
  apply_built-Coherent o blue (gives u) s ok h up =
      apply_probed-Coherent o blue (o.probe blue) s ok h up

  -- When a start migrates data forward only, up to what its environment reads, and a failing restore leaves
  -- the data, no database or the snapshot's, then an update to an environment that reads at least as far as
  -- the one in place, on data that this one reads, leaves the link, if it returns, whatever its ending, on
  -- an environment that reads the data.
  pub apply-Coherent :
      (o : Outside) (blue : String) (s : Instance)
      → IsSound o schema level
      → Reads s
      → level s.link ≤ level blue
      → Coherent (apply o blue s)
  unfolding apply
  apply-Coherent o blue s ok h up = apply_built-Coherent o blue o.builds s ok h up

  undo_restored-Coherent :
      (o : Outside) (current : String) (safety : ℕ) (a : Try) (s : Instance)
      → IsSound o schema level
      → s.link ≡ current
      → schema safety ≤ level current
      → schema s.data_state ≤ level current
      → Coherent (undo_restored o current safety a s)
  undo_restored-Coherent o current safety (gives u) s ok l h k =
      boot_level o s.link safety ok (rw l h)
  undo_restored-Coherent o current safety raises s ok l h k = tt
  undo_restored-Coherent o current safety fails s ok l h k =
      let left = spoilt_level o s.data_state safety (level current) ok k h in
      boot_level o s.link (o.spoilt s.data_state safety) ok (rw l left)

  undo-Coherent :
      (o : Outside) (current : String) (safety : ℕ) (s : Instance)
      → IsSound o schema level
      → schema safety ≤ level current
      → schema s.data_state ≤ level current
      → Coherent (undo o current safety s)
  undo-Coherent o current safety s ok h k = elim (Bool-cases o.swaps_back) [
    | inr e ↦ simp e tt
    | inl e ↦ simp e (
        undo_restored-Coherent o current safety (o.restores current safety) (swap current (stop s))
          ok refl h k)
  ]

  rollback_restored-Coherent :
      (o : Outside) (expected : Identity) (current : String) (snapshot : ℕ) (a : Try) (s : Instance)
      → IsSound o schema level
      → schema s.data_state ≤ level current
      → schema snapshot ≤ level s.link
      → level s.link ≤ level current
      → Coherent (rollback_restored o expected current snapshot s.data_state a s)
  rollback_restored-Coherent o expected current snapshot raises s ok h k up = tt
  rollback_restored-Coherent o expected current snapshot (gives u) s ok h k up =
      let live = repose_maps o s.link (start o (put_back snapshot s)) in
      let migrated = boot_level o s.link snapshot ok k in
      elim (Bool-cases (verify_live o expected live)) [
        | inl e ↦ simp e migrated
        | inr e ↦ simp e (undo-Coherent o current s.data_state live ok h (omega arith))
      ]
  rollback_restored-Coherent o expected current snapshot fails s ok h k up =
      let left = spoilt_level o s.data_state snapshot (level current) ok h (omega arith) in
      elim (Bool-cases o.swaps_back) [
        | inl e ↦ simp e (boot_level o current (o.spoilt s.data_state snapshot) ok left)
        | inr e ↦ simp e tt
      ]

  rollback_stopped-Coherent :
      (o : Outside) (expected : Identity) (target : String) (snapshot : ℕ) (a : Try) (s : Instance)
      → IsSound o schema level
      → Reads s
      → schema snapshot ≤ level target
      → level target ≤ level s.link
      → Coherent (rollback_stopped o expected target snapshot a s)
  rollback_stopped-Coherent o expected target snapshot fails s ok h k up =
      boot_level o s.link s.data_state ok h
  rollback_stopped-Coherent o expected target snapshot raises s ok h k up = tt
  rollback_stopped-Coherent o expected target snapshot (gives u) s ok h k up =
      elim (Bool-cases (o.target_remains && o.swaps)) [
        | inr e ↦ simp e (boot_level o s.link s.data_state ok h)
        | inl e ↦ simp e (
            rollback_restored-Coherent o expected s.link snapshot (o.restores target snapshot)
              (swap target s) ok h k up)
      ]

  rollback_probed-Coherent :
      (o : Outside) (target : String) (snapshot : ℕ) (p : Attempt Identity) (s : Instance)
      → IsSound o schema level
      → Reads s
      → schema snapshot ≤ level target
      → level target ≤ level s.link
      → Coherent (rollback_probed o target snapshot p s)
  rollback_probed-Coherent o target snapshot fails s ok h k up = h
  rollback_probed-Coherent o target snapshot raises s ok h k up = tt
  rollback_probed-Coherent o target snapshot (gives expected) s ok h k up =
      rollback_stopped-Coherent o expected target snapshot o.snapshot (stop s) ok h k up

  rollback_guarded-Coherent :
      (o : Outside) (target : String) (snapshot : ℕ) (a : Try) (s : Instance)
      → IsSound o schema level
      → Reads s
      → schema snapshot ≤ level target
      → level target ≤ level s.link
      → Coherent (rollback_guarded o target snapshot a s)
  rollback_guarded-Coherent o target snapshot fails s ok h k up = h
  rollback_guarded-Coherent o target snapshot raises s ok h k up = tt
  rollback_guarded-Coherent o target snapshot (gives u) s ok h k up =
      rollback_probed-Coherent o target snapshot (o.probe target) s ok h k up

  -- When a start migrates data forward only, up to what its environment reads, and a failing restore leaves
  -- the data, no database or the snapshot's, then a way back to an environment that reads the snapshot and
  -- no further than the one in place, on data that this one reads, leaves the link, if it returns, whatever
  -- its ending, on an environment that reads the data.
  pub rollback-Coherent :
      (o : Outside) (target : String) (snapshot : ℕ) (s : Instance)
      → IsSound o schema level
      → Reads s
      → schema snapshot ≤ level target
      → level target ≤ level s.link
      → Coherent (rollback o target snapshot s)
  unfolding rollback
  rollback-Coherent o target snapshot s ok h k up =
      rollback_guarded-Coherent o target snapshot o.target_guard s ok h k up
