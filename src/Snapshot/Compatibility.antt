-- ===== src/Snapshot/Compatibility.antt =====
-- `check_compatibility` of src/forgemaster/restore.py: whether the binary in place reads a database.
use forgemaster.Prelude.{ℕ, Bool, true, false, Option, none, some, ltb, if◌then◌else◌}

pub data Compatibility : Type 0 where
  compatible indeterminate too_new : Compatibility

unfoldable pub check_compatibility : Option ℕ → Option ℕ → Bool → Compatibility
check_compatibility none installed allow_unverified = compatible
check_compatibility (some snap) none allow_unverified =
    if allow_unverified then compatible else indeterminate
check_compatibility (some snap) (some installed) allow_unverified =
    if ltb installed snap then too_new else compatible

abbrev pub is_compatible : Compatibility → Bool
is_compatible compatible = true
is_compatible _ = false
