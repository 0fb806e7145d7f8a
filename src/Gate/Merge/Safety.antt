-- ===== src/Gate/Merge/Safety.antt =====
-- `run_merge` of src/forgemaster/gate/merge.py: the permission, and the operations of git in their order.
use forgemaster.Prelude.{
  ◌≡◌, refl, Bool, true, false, not, Option, none, some, List, [], ◌∷◌, ◌++◌, arith, Bool-cases,
  inl, inr, ap, sym, ◌∙◌,
}
use forgemaster.Gate.Statuses.{Decision}
use forgemaster.Gate.Merge.{
  Call, Reading, World, GitOp, delete_branch, Act, git, write, End, ended, git_op_error, exec,
  logged, Merge, merge_acts, merged_now, rebase_onto, merge_ff_dev, merge_ff_main, merge_writeback,
  remove_worktree, release_port, clear_path, resolve_all, outcome_of, act_on, evaluate_gate,
  run_merge, close_feature_tasks, close_all, git_if,
}

-- Git, the rows of the roadmap and the ports are as they were.
abbrev pub Untouched : World → World → Type 0
Untouched w after =
    (after.store ≡ w.store) × (after.reservations ≡ w.reservations) × (after.log ≡ w.log)

abbrev pub allowed : Option Decision → Bool
allowed none = false
allowed (some d) = d.allow

act_on_refused :
    (fails : GitOp → Bool) (m : Merge) (o : Option Decision) (w : World)
    → allowed o ≡ false
    → Untouched w (act_on fails m o w).1
act_on_refused fails m none w h = (refl, refl, refl)
act_on_refused fails m (some d) w h = elim (Bool-cases d.gate_green) [
  | inl green ↦ (ground arith, ground arith, ground arith)
  | inr red ↦ (ground arith, ground arith, ground arith)
]

-- When the decision does not allow the merge, or there is none, `run_merge` does nothing in git and
-- changes no row of the roadmap and no port; an alert is all that it may write.
pub run_merge_refused :
    (fails : GitOp → Bool) (m : Merge) (call : Call) (r : Reading) (w : World)
    → allowed (evaluate_gate call r) ≡ false
    → Untouched w (run_merge fails m call r w).1
unfolding run_merge
run_merge_refused fails m call r w h = act_on_refused fails m (evaluate_gate call r) w h

outcome_of_merged :
    (e : End) (w after : World)
    → outcome_of (e, w) ≡ (merged_now, after)
    → (e ≡ ended) × (w ≡ after)
outcome_of_merged ended w after h = (refl, ap (λ p. p.1) h)
outcome_of_merged (git_op_error op) w after h =
    let wrong = ap (λ p. p.0) h in absurd (ground (arith, wrong))

act_on_merged :
    (fails : GitOp → Bool) (m : Merge) (o : Option Decision) (w after : World)
    → act_on fails m o w ≡ (merged_now, after)
    → (allowed o ≡ true) × (exec fails (merge_acts m) w ≡ (ended, after))
act_on_merged fails m none w after h = let wrong = ap (λ p. p.0) h in absurd (ground (arith, wrong))
act_on_merged fails m (some d) w after h = elim (Bool-cases d.allow) [
  | inl granted ↦
      let run = exec fails (merge_acts m) w in
      let h' : outcome_of run ≡ (merged_now, after) = ground (arith, h) in
      let (e, same) = outcome_of_merged run.0 run.1 after h' in (granted, ground (arith, e, same))
  | inr denied ↦ elim (Bool-cases d.gate_green) [
    | inl green ↦ let wrong = ap (λ p. p.0) h in absurd (ground (arith, wrong))
    | inr red ↦ let wrong = ap (λ p. p.0) h in absurd (ground (arith, wrong))
  ]
]

-- An operation that is done before the end is in the log.
abbrev pub ops_of : List Act → List GitOp
ops_of [] = []
ops_of (git op ∷ acts) = op ∷ ops_of acts
ops_of (write f ∷ acts) = ops_of acts

-- the writes leave the log alone
abbrev pub KeepLog : List Act → Type 0
KeepLog [] = Unit
KeepLog (git op ∷ acts) = KeepLog acts
KeepLog (write f ∷ acts) = ((w : World) → (f w).log ≡ w.log) × KeepLog acts

log_snoc : (xs : List GitOp) (x : GitOp) (ys : List GitOp) → (xs ++ x ∷ []) ++ ys ≡ xs ++ x ∷ ys
log_snoc [] x ys = refl
log_snoc (y ∷ xs) x ys = ap (λ t. y ∷ t) (log_snoc xs x ys)

log_nil : (xs : List GitOp) → xs ≡ xs ++ []
log_nil [] = refl
log_nil (x ∷ xs) = ap (λ t. x ∷ t) (log_nil xs)

exec_log :
    (fails : GitOp → Bool) (acts : List Act) (w after : World)
    → KeepLog acts
    → exec fails acts w ≡ (ended, after)
    → after.log ≡ w.log ++ ops_of acts
unfolding exec
exec_log fails [] w after k h = ap (λ p. p.1.log) (sym h) ∙ log_nil w.log
exec_log fails (git op ∷ acts) w after k h = elim (Bool-cases (fails op)) [
  | inl bad ↦ let h' = rw bad at h in let wrong = ap (λ p. p.0) h' in absurd (ground (arith, wrong))
  | inr good ↦
      exec_log fails acts (logged op w) after k (rw good at h) ∙ log_snoc w.log op (ops_of acts)
]
exec_log fails (write f ∷ acts) w after k h =
    exec_log fails acts (f w) after k.1 h ∙ ap (λ l. l ++ ops_of acts) (k.0 w)

-- The operations of a merge, in their order.
abbrev pub ops_if : Bool → GitOp → List GitOp
ops_if true op = op ∷ []
ops_if false op = []

abbrev pub merge_ops : Merge → List GitOp
merge_ops m =
    ops_if (not m.dev_is_ancestor) rebase_onto
    ++ (merge_ff_dev ∷ merge_ff_main ∷ merge_writeback ∷ [])
    ++ ops_if m.worktree_exists remove_worktree
    ++ delete_branch ∷ []

-- the tail of the steps, after the worktree
abbrev cleanup : Merge → List Act
cleanup m =
    write (release_port m)
    ∷ write (clear_path m)
    ∷ git delete_branch
    ∷ write (close_all m)
    ∷ write (resolve_all m)
    ∷ []

abbrev steps : Bool → Bool → Merge → List Act
steps rebased removed m =
    git_if rebased rebase_onto
    ++ (git merge_ff_dev ∷ git merge_ff_main ∷ git merge_writeback ∷ [])
    ++ git_if removed remove_worktree
    ++ cleanup m

steps-KeepLog : (rebased removed : Bool) (m : Merge) → KeepLog (steps rebased removed m)
unfolding release_port close_feature_tasks
steps-KeepLog true true m = ((λ w. refl), ((λ w. refl), ((λ w. refl), ((λ w. refl), tt))))
steps-KeepLog true false m = ((λ w. refl), ((λ w. refl), ((λ w. refl), ((λ w. refl), tt))))
steps-KeepLog false true m = ((λ w. refl), ((λ w. refl), ((λ w. refl), ((λ w. refl), tt))))
steps-KeepLog false false m = ((λ w. refl), ((λ w. refl), ((λ w. refl), ((λ w. refl), tt))))

steps_ops :
    (rebased removed : Bool) (m : Merge)
    → ops_of (steps rebased removed m)
      ≡ ops_if rebased rebase_onto
        ++ (merge_ff_dev ∷ merge_ff_main ∷ merge_writeback ∷ [])
        ++ ops_if removed remove_worktree
        ++ delete_branch ∷ []
steps_ops true true m = refl
steps_ops true false m = refl
steps_ops false true m = refl
steps_ops false false m = refl

-- A merge that returns was allowed by the decision, and it has done in git, after what was done
-- before: the rebase when dev had moved on, the two fast-forwards, the writeback, the removal of the
-- worktree when there is one, and only then the deletion of the branch.
pub run_merge_log :
    (fails : GitOp → Bool) (m : Merge) (call : Call) (r : Reading) (w after : World)
    → run_merge fails m call r w ≡ (merged_now, after)
    → (allowed (evaluate_gate call r) ≡ true) × (after.log ≡ w.log ++ merge_ops m)
unfolding run_merge
run_merge_log fails m call r w after h =
    let (granted, run) = act_on_merged fails m (evaluate_gate call r) w after h in
    let rebased = not m.dev_is_ancestor in
    (
      granted,
      exec_log fails (merge_acts m) w after (steps-KeepLog rebased m.worktree_exists m) run
          ∙ ap (λ l. w.log ++ l) (steps_ops rebased m.worktree_exists m),
    )
