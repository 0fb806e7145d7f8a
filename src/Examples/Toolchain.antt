-- ===== src/Examples/Toolchain.antt =====
-- Diffs and gate units for the native toolchain, and slugs.
use forgemaster.Prelude.{
  ◌≡◌, refl, true, false, none, some, List, [], ◌∷◌, All, String, Option, ◌==◌, if◌then◌else◌,
  length,
}
use forgemaster.Prelude.Text.{Text, codes}
use forgemaster.Core.Ids.{is_slug, ensure_slug, slug, value_error}
use forgemaster.Gate.Toolchain.{
  Group, front, backend_node, backend, declared, Step, Outcome, exited, applicable_triggers,
  in_front, is_node, is_py, is_doc, is_tier0_source, has_reviewable_code,
}
use forgemaster.Gate.Toolchain.Run.{run_toolchain, Verdict, build_verdict, status}
use forgemaster.Gate.Toolchain.Closed.{IsCovered, run_toolchain_green}

abbrev prose : List Text
prose = codes "docs/a.md" ∷ codes "poetry.lock" ∷ []

abbrev mixed : List Text
mixed = codes "web/src/App.tsx" ∷ codes "src/main.py" ∷ []

abbrev go_file : List Text
go_file = codes "cmd/main.go" ∷ []

front_and_backend : applicable_triggers mixed ≡ front ∷ backend ∷ []
unfolding applicable_triggers in_front is_node is_py is_tier0_source is_doc
front_and_backend = refl

undeclared_language : applicable_triggers go_file ≡ declared ∷ []
unfolding applicable_triggers in_front is_node is_py is_tier0_source is_doc
undeclared_language = refl

prose_of_the_front : applicable_triggers (codes "web/README.md" ∷ []) ≡ front ∷ []
unfolding applicable_triggers in_front is_node is_py is_tier0_source is_doc
prose_of_the_front = refl

prose_quiet : applicable_triggers prose ≡ []
unfolding applicable_triggers in_front is_node is_py is_tier0_source is_doc
prose_quiet = refl

abbrev docs : List Text
docs = codes "docs/a.md" ∷ codes "README.rst" ∷ []

docs_not_reviewable : has_reviewable_code docs ≡ false
unfolding has_reviewable_code is_doc
docs_not_reviewable = refl

abbrev unit_of : Group → Option (List Step)
unit_of front =
    some (record { name = "tsc"; argv = codes "npx" ∷ codes "tsc" ∷ []; cwd = "web" } ∷ [])
unit_of backend_node = none
unit_of backend = some (
    record { name = "ruff"; argv = codes "ruff" ∷ codes "check" ∷ []; cwd = "." }
    ∷ record { name = "pytest"; argv = codes "pytest" ∷ codes "-q" ∷ []; cwd = "." }
    ∷ [])
unit_of declared = none

abbrev passing : Step → Outcome
passing step = exited 0 true

-- `sh -c "exit 0"`, and the same with its last word split: the second is not run.
abbrev two_words : Step
two_words = record { name = "t"; argv = codes "sh" ∷ codes "-c exit" ∷ codes "0" ∷ []; cwd = "." }

abbrev three_words : Step
three_words = record {
  name = "t";
  argv = codes "sh" ∷ codes "-c" ∷ codes "exit" ∷ codes "0" ∷ [];
  cwd = ".";
}

abbrev unit_of_two : Group → Option (List Step)
unit_of_two g = some (three_words ∷ two_words ∷ [])

-- The second one fails.
abbrev by_length : Step → Outcome
by_length step = if 3 == length step.argv then exited 1 false else exited 0 true

skipped_unrun :
    (build_verdict (run_toolchain unit_of_two by_length go_file) (some "c0ffee")).ok ≡ true
unfolding build_verdict run_toolchain applicable_triggers in_front is_node is_py is_tier0_source
    is_doc
skipped_unrun = refl

green_run : (build_verdict (run_toolchain unit_of passing mixed) (some "c0ffee")).ok ≡ true
unfolding build_verdict run_toolchain applicable_triggers in_front is_node is_py is_tier0_source
    is_doc
green_run = refl

run_toolchain_green_example : All (IsCovered unit_of passing) (applicable_triggers mixed)
run_toolchain_green_example = run_toolchain_green unit_of passing mixed (some "c0ffee") green_run

red_on_missing_unit :
    (build_verdict (run_toolchain unit_of passing go_file) (some "c0ffee")).ok ≡ false
unfolding build_verdict run_toolchain applicable_triggers in_front is_node is_py is_tier0_source
    is_doc
red_on_missing_unit = refl

abbrev stored : Verdict
stored = record {
  reviewed_sha = some "c0ffee";
  ok = true;
  n_steps = 0;
  failed_step = none;
  steps = [];
}

abbrev current : Option String
current = some "c0ffee"

green_status : (status "front,backend" (some stored) current mixed).ok ≡ true
unfolding status applicable_triggers in_front
green_status = refl

abbrev fix_42 : String
fix_42 = "fix-42"

good_slug : ensure_slug fix_42 ≡ slug fix_42
unfolding ensure_slug is_slug
good_slug = refl

bad_slug : ensure_slug "../etc" ≡ value_error
unfolding ensure_slug is_slug
bad_slug = refl
