-- ===== src/Update/Snapshots.antt =====
-- `_purge` of src/forgemaster/snapshot.py and `_refuse_if_target_would_be_purged` of
-- src/forgemaster/apply_update.py: how many snapshots are kept, and which.
--
-- A directory is its name and whether it has a manifest. A name is the number of its place in the order of
-- the texts, so the directories that `sorted(…, reverse=True)` gives have decreasing names.
use forgemaster.Prelude.{ℕ, ◌-◌, Bool, not, ◌&&◌, List, ◌++◌, ◌==◌, ltb, length, take, select}

pub record Directory : Type 0 where
  pub name : ℕ
  pub has_manifest : Bool

-- KEEP of snapshot.py, KEEP_SNAPSHOTS of apply_update.py
abbrev pub keep_snapshots : ℕ
keep_snapshots = 3

abbrev pub named : ℕ → Directory → Bool
named n d = d.name == n

abbrev pub complete_but : ℕ → Directory → Bool
complete_but spare d = not (named spare d) && d.has_manifest

-- What stays: the one that was just taken, and the `keep - 1` newest complete ones.
unfoldable pub purge : ℕ → ℕ → List Directory → List Directory
purge keep spare dirs =
    select (named spare) dirs ++ take (keep - 1) (select (complete_but spare) dirs)

abbrev pub is_later : ℕ → Directory → Bool
is_later target d = d.has_manifest && ltb target d.name

-- Not refused: few enough complete snapshots are later than the target.
unfoldable pub target_is_kept : ℕ → List Directory → Bool
target_is_kept target dirs = ltb (length (select (is_later target) dirs)) (keep_snapshots - 1)
