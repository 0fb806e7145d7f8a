-- ===== src/Gate/Decision/Context.antt =====
-- `blocker_tier` of src/forgemaster/gate/merge.py: the tier of context of a red gate.
--
-- The code looks for the words tier-0, tier-1.5 and tier-1 in the text of the blockers. Each message
-- of the gate begins with the word of its tier (`word`), and only a Tier-0 message shows text from
-- outside (the failing command), so the first search that succeeds is decided by these words.
use forgemaster.Prelude.{Bool, true, false, Option, none, some, List, any, if◌then◌else◌}
use forgemaster.Gate.Statuses.{
  Blocker, tier0_red, native_failed, tier1_absent, tier1_stale, tier1_red, t15_unproved, t15_failed,
}

pub data Word : Type 0 where
  tier0 tier1 tier15 : Word

-- The word that the text of a blocker begins with.
abbrev pub word : Blocker → Word
word (tier0_red n) = Word.tier0
word (native_failed s) = Word.tier0
word tier1_absent = Word.tier1
word tier1_stale = Word.tier1
word (tier1_red n) = Word.tier1
word (t15_unproved w) = Word.tier15
word (t15_failed n) = Word.tier15

abbrev pub says_tier0 : Blocker → Bool
says_tier0 b = elim (word b) [ Word.tier0 ↦ true | _ ↦ false ]

abbrev pub says_tier15 : Blocker → Bool
says_tier15 b = elim (word b) [ Word.tier15 ↦ true | _ ↦ false ]

abbrev pub says_tier1 : Blocker → Bool
says_tier1 b = elim (word b) [ Word.tier1 ↦ true | _ ↦ false ]

unfoldable pub blocker_tier : List Blocker → Option Word
blocker_tier bs =
    if any says_tier0 bs
    then some Word.tier0
    else if any says_tier15 bs
    then some Word.tier15
    else if any says_tier1 bs
    then some Word.tier1
    else none
