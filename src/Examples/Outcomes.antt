-- ===== src/Examples/Outcomes.antt =====
-- A project with two merges, one of which is replayed and one reverted.
use forgemaster.Prelude.{
  ℕ, ◌≡◌, refl, String, true, false, Option, none, some, List, [], ◌∷◌, select, select_one, update,
}
use forgemaster.Db.Outcomes.{
  GreenMerge, MergeArgs, record_merge, MarkArgs, mark_outcome, newest_first, put_newest,
  list_outcomes, value_error, key_error,
}
use forgemaster.Db.Outcomes.Reliability.{GlobalReliability, global_of, of_all, reliability, tally}
use forgemaster.Db.Outcomes.Journal.{
  Call, records, marks, perform_all, IsJournal, perform_all-IsJournal,
}
use forgemaster.Db.Outcomes.Totals.{IsTotal, reliability-IsTotal}
use forgemaster.Examples.Roadmap.{db}

abbrev first_merge : MergeArgs
first_merge = record {
  new_id = "m1";
  project = "demo";
  feature = "api";
  feature_ref = "demo/api";
  sha = "aaaa";
  human_go = true;
  ts = "2026-07-03";
}

abbrev second_merge : MergeArgs
second_merge = record first_merge { new_id = "m2"; sha = "bbbb"; ts = "2026-07-04" }

abbrev revert : MarkArgs
revert = record {
  project = "demo";
  feature = "api";
  outcome = "reverted";
  sha = none;
  note = some "broke the login";
  ts = "2026-07-05";
}

abbrev calls : List Call
calls =
    records true first_merge
    ∷ records true second_merge
    ∷ records true (record first_merge { new_id = "m3" })
    ∷ records false (record first_merge { sha = "cccc" })
    ∷ marks db [] revert
    ∷ []

abbrev ids_of : List GreenMerge → List String
ids_of [] = []
ids_of (m ∷ ms) = m.id ∷ ids_of ms

abbrev marks_of : List GreenMerge → List (Option String)
marks_of [] = []
marks_of (m ∷ ms) = m.marked_at ∷ marks_of ms

replay_ignored : ids_of (perform_all calls []) ≡ "m1" ∷ "m2" ∷ []
unfolding record_merge mark_outcome newest_first put_newest select select_one update
replay_ignored = refl

-- Without a SHA the newest merge is marked.
newest_marked : marks_of (perform_all calls []) ≡ none ∷ some "2026-07-05" ∷ []
unfolding record_merge mark_outcome newest_first put_newest select select_one update
newest_marked = refl

other_word : (mark_outcome db [] (record revert { outcome = "lost" }) []).0 ≡ value_error
unfolding mark_outcome
other_word = refl

no_merge : (mark_outcome db [] revert []).0 ≡ key_error
unfolding mark_outcome newest_first select
no_merge = refl

perform_all-IsJournal_example : IsJournal (perform_all calls [])
perform_all-IsJournal_example = perform_all-IsJournal calls [] (tt, tt)

abbrev percent : ℕ → ℕ → ℕ
percent a b = a

abbrev all_of : GlobalReliability
all_of = global_of percent none (list_outcomes db [] none (perform_all calls []))

reliability_of_all : reliability percent db [] none (perform_all calls []) none ≡ of_all all_of
unfolding reliability
reliability_of_all = refl

one_reverted : all_of.counts.n_reverted ≡ 1
unfolding record_merge mark_outcome newest_first put_newest select select_one update list_outcomes
    tally
one_reverted = refl

reliability-IsTotal_example : IsTotal all_of
reliability-IsTotal_example =
    reliability-IsTotal percent db [] none (perform_all calls []) all_of reliability_of_all
