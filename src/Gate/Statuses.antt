-- ===== src/Gate/Statuses.antt =====
-- The dicts that src/forgemaster/gate/merge.py reads and writes: the status of each tier, and the
-- decision with its blockers and reasons.
--
-- A dict that may be None is an `Option`, and a key that is read with `.get` has the value that the
-- code reads when it is missing (False, 0, None). A blocker, an override and a reason are one
-- constructor for each message of the code, with the values that the message shows.
use forgemaster.Prelude.{ℕ, String, Bool, true, false, Option, none, some, List, [], ◌∷◌}

pub record Counts : Type 0 where
  pub red : ℕ
  pub yellow : ℕ
  pub purple : ℕ

pub record Tier0 : Type 0 where
  pub red : ℕ
  pub yellow : ℕ

-- `review.status`
pub record ReviewStatus : Type 0 where
  pub present : Bool
  pub fresh : Bool
  pub blocking : Bool
  pub counts : Option Counts
  pub reviewed_sha : Option String

-- `verify.status`, Tier-1.5
pub record VerifyStatus : Type 0 where
  pub present : Bool
  pub fresh : Bool
  pub blocking : Bool
  pub n_failed : Option ℕ
  pub reviewed_sha : Option String

-- `toolchain.status`, the native Tier-0
pub record NativeStatus : Type 0 where
  pub applicable : Bool
  pub ok : Bool
  pub failed_step : Option String
  pub cmd : Option String
  pub exit_code : Option ℕ

-- `woaw.status`, advisory
pub record WoawStatus : Type 0 where
  pub present : Bool
  pub fresh : Bool
  pub counts : Option Counts
  pub flat : Bool
  pub route : Option String

-- Why the end-to-end proof does not count.
pub data Unproved : Type 0 where
  absent stale : Unproved

pub data Blocker : Type 0 where
  tier0_red : ℕ → Blocker
  native_failed : NativeStatus → Blocker
  tier1_absent tier1_stale : Blocker
  tier1_red : ℕ → Blocker
  t15_unproved : Unproved → Blocker
  t15_failed : Option ℕ → Blocker

pub data Override : Type 0 where
  over_tier1 : ℕ → String → Override
  over_unproved : Unproved → String → Override
  over_failed : Option ℕ → String → Override

pub data Reason : Type 0 where
  blocked : Blocker → Reason
  overridden : Override → Reason
  tier1_na tier1_pass : Reason
  tier1_advisory : ℕ → ℕ → Reason
  tier0_yellow : ℕ → Reason
  native_pass : Option String → Reason
  native_na t15_na : Reason
  woaw_advisory : Counts → Option String → Bool → Reason
  woaw_na waiting_go authorised : Reason

pub data Verb : Type 0 where
  merge hold : Verb

pub record Decision : Type 0 where
  pub allow : Bool
  pub decision : Verb
  pub gate_green : Bool
  pub human_go : Bool
  pub ui_touched : Bool
  pub t15_overridden : Bool
  pub t1_overridden : Bool
  pub refixable : Bool
  pub blockers : List Blocker
  pub reasons : List Reason

-- The arguments of `compose_merge_decision`.
pub record Inputs : Type 0 where
  pub tier0 : Tier0
  pub tier1 : ReviewStatus
  pub human_go : Bool
  pub t15_status : Option VerifyStatus
  pub ui_touched : Bool
  pub t15_override : String
  pub native_status : Option NativeStatus
  pub t1_override : String
  pub code_touched : Bool
  pub woaw_status : Option WoawStatus

abbrev pub no_counts : Counts
no_counts = record { red = 0; yellow = 0; purple = 0 }

-- `counts or {}`, then `.get(k, 0)`
abbrev pub counts_or : Option Counts → Counts
counts_or none = no_counts
counts_or (some c) = c

-- `t15_status or {}`
abbrev pub verify_or : Option VerifyStatus → VerifyStatus
verify_or (some s) = s
verify_or none = record {
  present = false;
  fresh = false;
  blocking = false;
  n_failed = none;
  reviewed_sha = none;
}

-- `native_status or {}`
abbrev pub native_or : Option NativeStatus → NativeStatus
native_or (some s) = s
native_or none = record {
  applicable = false;
  ok = false;
  failed_step = none;
  cmd = none;
  exit_code = none;
}

-- `woaw_status or {}`
abbrev pub woaw_or : Option WoawStatus → WoawStatus
woaw_or (some s) = s
woaw_or none = record { present = false; fresh = false; counts = none; flat = false; route = none }

abbrev pub only_if {ℓ} : {A : Type ℓ} → Bool → A → List A
only_if true a = a ∷ []
only_if false a = []

abbrev pub is_empty {ℓ} : {A : Type ℓ} → List A → Bool
is_empty [] = true
is_empty (x ∷ xs) = false
