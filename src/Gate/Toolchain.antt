-- ===== src/Gate/Toolchain.antt =====
-- src/forgemaster/gate/toolchain.py: the native Tier-0. Which groups a diff triggers, the run of their
-- steps, and the verdict tied to a SHA.
--
-- What the code reads of the worktree is the argument `steps_for` (`_steps_for`: None when no gate
-- unit covers the group), and the run of one step is the argument `run_step`.
pub mod Triggers
pub mod Run
pub mod Closed
use forgemaster.Prelude.{
  ℕ, String, Bool, true, false, not, ◌&&◌, ◌||◌, Option, none, some, List, [], ◌∷◌, ◌++◌, map, any,
  all, length, str_eq, opt_str_eq, if◌then◌else◌, truthy, select_one,
}
use forgemaster.Prelude.Text.{
  Text, codes, text_eq, ends_with, contains, ends_with_any, text_mem, last_part,
}
use forgemaster.Gate.Statuses.{NativeStatus, only_if}

abbrev pub front_dir : Text
front_dir = codes "web/"

abbrev pub py_suffix : Text
py_suffix = codes ".py"

abbrev pub node_suffixes : List Text
node_suffixes = map codes (".ts" ∷ ".tsx" ∷ ".js" ∷ ".jsx" ∷ ".mjs" ∷ ".cjs" ∷ ".mts" ∷ ".cts" ∷ [])

abbrev pub doc_suffixes : List Text
doc_suffixes = map codes (".md" ∷ ".mdx" ∷ ".rst" ∷ ".txt" ∷ [])

abbrev pub asset_suffixes : List Text
asset_suffixes = map codes (
    ".png" ∷ ".jpg" ∷ ".jpeg" ∷ ".gif" ∷ ".webp" ∷ ".avif" ∷ ".ico" ∷ ".svg" ∷ ".bmp" ∷ ".woff"
    ∷ ".woff2" ∷ ".ttf" ∷ ".otf" ∷ ".eot" ∷ ".mp3" ∷ ".mp4" ∷ ".webm" ∷ ".wav" ∷ ".ogg" ∷ ".pdf"
    ∷ ".zip" ∷ ".gz" ∷ ".tar" ∷ [])

abbrev pub lock_suffixes : List Text
lock_suffixes = codes ".lock" ∷ []

abbrev pub lock_names : List Text
lock_names = map codes ("package-lock.json" ∷ "npm-shrinkwrap.json" ∷ "go.sum" ∷ [])

-- The suffix tests of one file name.
unfoldable pub in_front : Text → Bool
in_front f = contains front_dir f

unfoldable pub is_node : Text → Bool
is_node f = ends_with_any node_suffixes f

unfoldable pub is_py : Text → Bool
is_py f = ends_with py_suffix f

unfoldable pub is_doc : Text → Bool
is_doc f = ends_with_any doc_suffixes f

unfoldable pub touches_front : List Text → Bool
touches_front files = any in_front files

unfoldable pub touches_node_backend : List Text → Bool
touches_node_backend files = any (λ f. is_node f && not (in_front f)) files

unfoldable pub touches_py : List Text → Bool
touches_py files = any is_py files

unfoldable pub is_tier0_source : Text → Bool
is_tier0_source f = not (
    is_doc f
    || (ends_with_any asset_suffixes f
        || (ends_with_any lock_suffixes f || text_mem (last_part b'/' f) lock_names)))

unfoldable pub covered_by_known_route : Text → Bool
covered_by_known_route f = in_front f || (is_node f || is_py f)

unfoldable pub touches_undeclared_source : List Text → Bool
touches_undeclared_source files =
    any (λ f. is_tier0_source f && not (covered_by_known_route f)) files

pub data Group : Type 0 where
  front backend_node backend declared : Group

unfoldable pub applicable_triggers : List Text → List Group
unfolding touches_front touches_node_backend touches_py touches_undeclared_source
    covered_by_known_route
applicable_triggers diff_files =
    only_if (touches_front diff_files) front
    ++ (only_if (touches_node_backend diff_files) backend_node
        ++ (only_if (touches_py diff_files) backend
            ++ only_if (touches_undeclared_source diff_files) declared))

abbrev pub nonempty {ℓ} : {A : Type ℓ} → List A → Bool
nonempty [] = false
nonempty (x ∷ xs) = true

unfoldable pub is_docs_only : List Text → Bool
is_docs_only files = nonempty files && all is_doc files

unfoldable pub has_reviewable_code : List Text → Bool
unfolding is_docs_only
has_reviewable_code files = nonempty files && not (is_docs_only files)

-- A step of a gate unit: its name, the words of its command, and the directory where it runs.
pub record Step : Type 0 where
  pub name : String
  pub argv : List Text
  pub cwd : String

-- `" ".join(argv)`
abbrev pub join_words : List Text → Text
join_words [] = []
join_words (w ∷ []) = w
join_words (w ∷ (v ∷ ws)) = w ++ b' ' ∷ join_words (v ∷ ws)

-- `key`: what the deduplication compares, with the command joined.
abbrev pub same_step : Step → Step → Bool
same_step a b =
    str_eq a.name b.name && (text_eq (join_words a.argv) (join_words b.argv) && str_eq a.cwd b.cwd)

-- `run(argv, …)`: an exit code, or RunTimeout or OSError.
pub data Outcome : Type 0 where
  exited : ℕ → Bool → Outcome
  failed_to_run : Outcome

abbrev pub outcome_ok : Outcome → Bool
outcome_ok (exited code good) = good
outcome_ok failed_to_run = false

abbrev pub outcome_code : Outcome → Option ℕ
outcome_code (exited code good) = some code
outcome_code failed_to_run = none

pub record StepResult : Type 0 where
  pub group : Group
  pub name : String
  pub cmd : Text
  pub exit_code : Option ℕ
  pub ok : Bool

module _ (run_step : Step → Outcome) where
  abbrev pub result_of : Group → Step → StepResult
  result_of group step = record {
    group = group;
    name = step.name;
    cmd = join_words step.argv;
    exit_code = outcome_code (run_step step);
    ok = outcome_ok (run_step step);
  }
