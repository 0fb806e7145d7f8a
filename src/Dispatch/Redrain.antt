-- ===== src/Dispatch/Redrain.antt =====
-- src/forgemaster/dispatch/redrain.py: a feature goes back to the start, from the current dev.
use forgemaster.Prelude.{
  ℕ, String, Bool, true, false, not, ◌&&◌, List, [], ◌∷◌, ◌++◌, length, select, update, str_eq,
}
use forgemaster.Roadmap.Rows.{planned, Task, TaskStatus, todo}
use forgemaster.Db.Alerts.{Kind, worker_failed, rate_limited, interrupted, gate_red, resolve_alerts}
use forgemaster.Gate.Merge.{
  GitOp, remove_worktree, World, write, End, exec, Merge, git_if, release_port, clear_path,
}

-- _STALE_KINDS
abbrev pub stale_kinds : List Kind
stale_kinds = worker_failed ∷ rate_limited ∷ interrupted ∷ gate_red ∷ []

abbrev pub is_cancelled : TaskStatus → Bool
is_cancelled TaskStatus.cancelled = true
is_cancelled _ = false

abbrev pub to_reset : String → Task → Bool
to_reset feature_id t = str_eq t.feature_id feature_id && not (is_cancelled t.status)

-- the two UPDATEs
abbrev pub reset_rows : Merge → World → World
reset_rows m w = record w {
  store = record w.store {
    tasks = update (to_reset m.feature.id) (λ t. record t { status = todo }) w.store.tasks;
    features =
        update (λ f. str_eq f.id m.feature.id) (λ f. record f { status = planned })
          w.store.features;
  };
}

abbrev pub resolve_stale : Merge → World → World
resolve_stale m w = record w {
  alerts = resolve_alerts true m.project m.feature_ref stale_kinds m.now w.alerts;
}

-- `tasks_reset`, and how the steps end.
unfoldable pub redrain_feature : (GitOp → Bool) → Merge → World → ℕ × (End × World)
unfolding exec release_port resolve_alerts
redrain_feature fails m w = (
  length (select (to_reset m.feature.id) w.store.tasks),
  exec fails
      (git_if m.worktree_exists remove_worktree
        ++ write (release_port m)
          ∷ write (clear_path m)
          ∷ write (reset_rows m)
          ∷ write (resolve_stale m)
          ∷ [])
      w,
)
