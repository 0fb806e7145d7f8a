-- ===== src/Dispatch/Worktree.antt =====
-- src/forgemaster/dispatch/worktree.py: a worktree of a feature and its port.
--
-- What git answers is an argument: whether the worktree is on disk, whether dev is an ancestor of the
-- branch, and whether the operation that is due raises GitOpError.
pub mod Atomic
use forgemaster.Prelude.{
  ℕ, String, Bool, true, false, not, ◌&&◌, ◌||◌, Option, none, some, List, [], ◌∷◌, ◌++◌, any,
  update, str_eq, if◌then◌else◌,
}
use Prim.Native.String.{◌++◌ as str_append}
use forgemaster.Roadmap.Rows.{
  Feature, FeatureStatus, active, Store, Result, returned, value_error, key_error, resolve_feature,
}
use forgemaster.Dispatch.Ports.{
  Reservation, PortRange, Probe, Stamp, Race, PortResult, ok, pool_exhausted, default_range,
  has_key, reserve as reserve_port,
}

pub record Tables : Type 0 where
  pub store : Store
  pub reservations : List Reservation

-- What the disk and git say about the feature at the time of the call.
pub record Checkout : Type 0 where
  pub path : String
  pub exists : Bool
  pub dev_is_ancestor : Bool
  pub add_raises : Bool
  pub rebase_raises : Bool

pub data Reserved : Type 0 where
  reserved : String → ℕ → String → Reserved
  unknown_feature : Reserved
  bad_reference : Reserved
  git_op_error : Reserved
  no_port : Reserved

abbrev pub ref_of : String → String → String
ref_of project feature = str_append project (str_append "/" feature)

-- `_purpose`
abbrev pub purpose_of : String → String
purpose_of feature = str_append "worktree:" feature

-- `add_worktree` when there is none, `rebase_onto` when dev has moved on.
abbrev pub git_raises : Checkout → Bool
git_raises c = if not c.exists then c.add_raises else not c.dev_is_ancestor && c.rebase_raises

-- UPDATE features SET worktree_path = ?, status = 'active' WHERE id = ?
abbrev pub activate : String → String → Store → Store
activate path id db = record db {
  features =
      update (λ f. str_eq f.id id) (λ f. record f { worktree_path = some path; status = active })
        db.features;
}

module _ (probe : Probe) (stamp : Stamp) (race : Race) where
  abbrev pub with_port :
      Checkout → Feature → Store → PortResult Reservation × List Reservation → Reserved × Tables
  with_port c feat db (ok row, rows) = (
    reserved c.path row.port feat.branch,
    record { store = activate c.path feat.id db; reservations = rows },
  )
  with_port c feat db (pool_exhausted, rows) = (no_port, record { store = db; reservations = rows })

  abbrev pub reserve_for : String → String → Checkout → Tables → Result Feature → Reserved × Tables
  reserve_for project feature c t (returned feat) =
      if git_raises c
      then (git_op_error, t)
      else with_port c feat t.store
          (reserve_port default_range probe stamp race project (purpose_of feature) t.reservations)
  reserve_for project feature c t value_error = (bad_reference, t)
  reserve_for project feature c t key_error = (unknown_feature, t)

  unfoldable pub reserve : String → String → Checkout → Tables → Reserved × Tables
  unfolding resolve_feature reserve_port
  reserve project feature c t =
      reserve_for project feature c t (resolve_feature t.store (ref_of project feature))

-- An anomaly of `audit`, with the project and the feature.
pub data Orphan : Type 0 where
  port_without_worktree : String → String → ℕ → Orphan
  worktree_without_port : String → String → Orphan
  stale_base : String → String → Orphan

module _ (on_disk : String → String → Bool) (base_is_ancestor : String → Feature → Bool)
    (feature_of_purpose : String → String) where
  unfoldable pub ports_without : List Reservation → List Orphan
  ports_without [] = []
  ports_without (r ∷ rs) =
      let rest = ports_without rs in
      let feature = feature_of_purpose r.purpose in
      if on_disk r.project feature
      then rest
      else port_without_worktree r.project feature r.port ∷ rest

  abbrev pub missing_port : List Reservation → String → String → List Orphan
  missing_port rows project feature =
      if any (has_key project (purpose_of feature)) rows
      then []
      else worktree_without_port project feature ∷ []

  -- A KeyError is passed over, a ValueError is raised.
  abbrev pub stale_of : String → String → Result Feature → Option (List Orphan)
  stale_of project feature (returned feat) =
      some (if base_is_ancestor project feat then [] else stale_base project feature ∷ [])
  stale_of project feature key_error = some []
  stale_of project feature value_error = none

  abbrev pub join : List Orphan → Option (List Orphan) → Option (List Orphan) → Option (List Orphan)
  join a none c = none
  join a (some b) none = none
  join a (some b) (some c) = some (a ++ b ++ c)

  -- The loop over the worktrees on disk.
  unfoldable pub worktrees_without : Tables → List (String × String) → Option (List Orphan)
  unfolding resolve_feature
  worktrees_without t [] = some []
  worktrees_without t ((project, feature) ∷ dirs) =
      join (missing_port t.reservations project feature)
        (stale_of project feature (resolve_feature t.store (ref_of project feature)))
        (worktrees_without t dirs)

  unfoldable pub audit : Tables → List (String × String) → Option (List Orphan)
  unfolding ports_without worktrees_without
  audit t dirs = join (ports_without t.reservations) (some []) (worktrees_without t dirs)
