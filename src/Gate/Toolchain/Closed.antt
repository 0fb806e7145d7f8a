-- ===== src/Gate/Toolchain/Closed.antt =====
-- `run_toolchain` and `status` of src/forgemaster/gate/toolchain.py: what a green verdict rests on.
use forgemaster.Prelude.{
  String, ◌≡◌, refl, Bool, true, false, ◌&&◌, Option, none, some, ◌≢◌, List, [], ◌∷◌, ◌++◌, arith,
  any, all, All, Bool-cases, Option-cases, inl, inr, eq_iff, opt_str_eq, ap, sym, ◌∙◌,
}
use forgemaster.Prelude.Text.{Text, text_eq_sound}
use forgemaster.Gate.Toolchain.{
  Group, Step, StepResult, Outcome, join_words, same_step, result_of, outcome_ok,
  applicable_triggers, nonempty,
}
use forgemaster.Gate.Toolchain.Run.{
  missing, run_steps, run_groups, run_toolchain, Verdict, build_verdict, status,
}

abbrev all_ok : List StepResult → Bool
all_ok results = all (λ r. r.ok) results

all_ok-snoc : (rs : List StepResult) (r : StepResult) → all_ok (rs ++ r ∷ []) ≡ (all_ok rs && r.ok)
all_ok-snoc [] r = ground arith
all_ok-snoc (x ∷ xs) r = ground (arith, all_ok-snoc xs r)

snoc_append :
    (before : List Step) (step : Step) (steps : List Step)
    → before ++ step ∷ steps ≡ (before ++ step ∷ []) ++ steps
snoc_append [] step steps = refl
snoc_append (x ∷ xs) step steps = ap (λ t. x ∷ t) (snoc_append xs step steps)

module _ (steps_for : Group → Option (List Step)) (run_step : Step → Outcome) where
  abbrev Passes : Step → Type 0
  Passes step = outcome_ok (run_step step) ≡ true

  -- The step is one of a gate unit.
  abbrev pub IsListed : Step → Type 0
  IsListed step =
      (group : Group) × (unit before after : List Step) × (steps_for group ≡ some unit)
      × (unit ≡ before ++ step ∷ after)

  -- A step of a gate unit passes that has the same key: the name, the joined command, the directory.
  abbrev pub IsPlayed : Step → Type 0
  IsPlayed step =
      (twin : Step) × IsListed twin
      × (twin.name ≡ step.name)
      × (join_words twin.argv ≡ join_words step.argv)
      × (twin.cwd ≡ step.cwd)
      × Passes twin

  -- The group has a gate unit, and every step of it was played.
  abbrev pub IsCovered : Group → Type 0
  IsCovered group = (steps : List Step) × (steps_for group ≡ some steps) × All IsPlayed steps

  abbrev IsGood : Step → Type 0
  IsGood step = IsListed step × Passes step

  IsPlayed-itself : (step : Step) → IsGood step → IsPlayed step
  IsPlayed-itself step good = (step, good.0, refl, refl, refl, good.1)

  unit-IsListed :
      (group : Group) (unit before steps : List Step)
      → steps_for group ≡ some unit
      → unit ≡ before ++ steps
      → All IsListed steps
  unit-IsListed group unit before [] e split = tt
  unit-IsListed group unit before (step ∷ steps) e split = (
    (group, unit, before, steps, e, split),
    unit-IsListed group unit (before ++ step ∷ []) steps e (split ∙ snoc_append before step steps),
  )

  earlier_good :
      (step : Step) (seen : List Step)
      → any (same_step step) seen ≡ true
      → All IsGood seen
      → IsPlayed step
  earlier_good step [] h all_good = absurd (cc)
  earlier_good step (x ∷ xs) h all_good = elim (Bool-cases (same_step step x)) [
    | inl e ↦ (
      x,
      all_good.0.0,
      ground (arith, eq_iff step.name x.name),
      sym (text_eq_sound (join_words step.argv) (join_words x.argv) (ground arith)),
      ground (arith, eq_iff step.cwd x.cwd),
      all_good.0.1,
    )
    | inr e ↦ earlier_good step xs (ground arith) all_good.1
  ]

  run_steps_mono :
      (group : Group) (steps seen : List Step) (results : List StepResult)
      → all_ok (run_steps steps_for run_step group steps seen results).results ≡ true
      → all_ok results ≡ true
  unfolding run_steps
  run_steps_mono group [] seen results h = h
  run_steps_mono group (step ∷ steps) seen results h = ground (
    arith,
    all_ok-snoc results (result_of run_step group step),
    run_steps_mono group steps seen results,
    run_steps_mono group steps (step ∷ seen) (results ++ result_of run_step group step ∷ []),
  )

  -- A step that is new and passes is recorded, and the loop goes on.
  run_steps_go :
      (group : Group) (step : Step) (steps seen : List Step) (results : List StepResult)
      → any (same_step step) seen ≡ false
      → outcome_ok (run_step step) ≡ true
      → run_steps steps_for run_step group (step ∷ steps) seen results
        ≡ run_steps steps_for run_step group steps
            (step ∷ seen)
            (results ++ result_of run_step group step ∷ [])
  unfolding run_steps
  run_steps_go group step steps seen results new good = ground arith

  run_steps_green :
      (group : Group) (steps seen : List Step) (results : List StepResult)
      → All IsListed steps
      → All IsGood seen
      → all_ok (run_steps steps_for run_step group steps seen results).results ≡ true
      → All IsPlayed steps
        × All IsGood (run_steps steps_for run_step group steps seen results).seen
        × ((run_steps steps_for run_step group steps seen results).stopped ≡ false)
  unfolding run_steps
  run_steps_green group [] seen results l s h = (tt, s, refl)
  run_steps_green group (step ∷ steps) seen results l s h =
      elim (Bool-cases (any (same_step step) seen)) [
        | inl old ↦
            let rest = run_steps_green group steps seen results l.1 s (rw old at h) in
            rw old ((earlier_good step seen old s, rest.0), rest.1, rest.2)
        | inr new ↦ elim (Bool-cases (outcome_ok (run_step step))) [
          | inl good ↦
              let go = run_steps_go group step steps seen results new good in
              let rest =
                run_steps_green group steps (step ∷ seen)
                  (results ++ result_of run_step group step ∷ []) l.1 ((l.0, good), s)
                  (rw go at h) in
              rw go ((IsPlayed-itself step (l.0, good), rest.0), rest.1, rest.2)
          | inr bad ↦ absurd (ground (arith, all_ok-snoc results (result_of run_step group step)))
        ]
      ]

  run_groups_mono :
      (groups : List Group) (seen : List Step) (results : List StepResult)
      → all_ok (run_groups steps_for run_step groups seen results) ≡ true
      → all_ok results ≡ true
  unfolding run_groups
  run_groups_mono [] seen results h = h
  run_groups_mono (group ∷ groups) seen results h = elim (Option-cases (steps_for group)) [
    | inl absent ↦ ground (arith, all_ok-snoc results (missing group))
    | inr (steps, e) ↦
        let p = run_steps steps_for run_step group steps seen results in
        ground
          (arith, run_steps_mono group steps seen results, run_groups_mono groups p.seen p.results)
  ]

  run_groups_green :
      (groups : List Group) (seen : List Step) (results : List StepResult)
      → All IsGood seen
      → all_ok (run_groups steps_for run_step groups seen results) ≡ true
      → All IsCovered groups
  unfolding run_groups
  run_groups_green [] seen results s h = tt
  run_groups_green (group ∷ groups) seen results s h = elim (Option-cases (steps_for group)) [
    | inl absent ↦ absurd (ground (arith, all_ok-snoc results (missing group)))
    | inr (steps, e) ↦
        let p = run_steps steps_for run_step group steps seen results in
        let ok : all_ok p.results ≡ true =
          ground (arith, run_groups_mono groups p.seen p.results) in
        let (passed, seen_pass, running) =
          run_steps_green group steps seen results (unit-IsListed group steps [] steps e refl) s
            ok in
        let rest : all_ok (run_groups steps_for run_step groups p.seen p.results) ≡ true =
          ground arith in
        ((steps, e, passed), run_groups_green groups p.seen p.results seen_pass rest)
  ]

  -- A green verdict of the native toolchain means that every group that the diff triggers has a gate
  -- unit, and that for every step of it a step of a gate unit passes with the same name, the same
  -- directory and the same words once joined by spaces: nothing else that is triggered is dropped or
  -- skipped.
  pub run_toolchain_green :
      (diff_files : List Text) (sha : Option String)
      → (build_verdict (run_toolchain steps_for run_step diff_files) sha).ok ≡ true
      → All IsCovered (applicable_triggers diff_files)
  unfolding build_verdict run_toolchain
  run_toolchain_green diff_files sha h =
      run_groups_green (applicable_triggers diff_files) [] [] tt h

pub opt_str_eq-eq : (a b : Option String) → opt_str_eq a b ≡ true → a ≡ b
opt_str_eq-eq none none h = refl
opt_str_eq-eq none (some b) h = absurd (cc)
opt_str_eq-eq (some a) none h = absurd (cc)
opt_str_eq-eq (some a) (some b) h = ap some ((eq_iff a b).0 h)

-- A status that applies and is green comes from a stored green verdict on the current SHA; it applies
-- exactly when the diff triggers a group.
pub status_green :
    (summary : String) (stored : Option Verdict) (current_sha : Option String) (files : List Text)
    → (status summary stored current_sha files).ok ≡ true
    → (v : Verdict) × (stored ≡ some v)
      × (v.ok ≡ true)
      × (v.reviewed_sha ≡ current_sha)
      × (current_sha ≢ none)
      × (nonempty (applicable_triggers files) ≡ true)
unfolding status
status_green summary none current_sha files h = absurd (ground arith)
status_green summary (some v) none files h = absurd (ground arith)
status_green summary (some v) (some sha) files h = (
  v,
  refl,
  ground arith,
  opt_str_eq-eq v.reviewed_sha (some sha) (ground arith),
  (λ e. cc),
  ground arith,
)
