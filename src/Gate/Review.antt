-- ===== src/Gate/Review.antt =====
-- src/forgemaster/gate/review.py: the verdict of a review, whose findings must cite the diff.
--
-- The diff is the list of its lines (`splitlines`). `is_space` is the test of white space of Python's
-- `split` and `strip`. A key that is missing from a finding is None.
pub mod Evidence
use forgemaster.Prelude.{
  ℕ, String, drop, Bool, true, false, not, ◌&&◌, ◌||◌, Option, none, some, List, [], ◌∷◌, ◌++◌,
  ◌==◌, ltb, any, length, select, opt_str_eq, if◌then◌else◌, truthy,
}
use forgemaster.Prelude.Text.{Text, codes, text_eq, starts_with, contains}
use forgemaster.Gate.Statuses.{Counts, ReviewStatus}

pub data Severity : Type 0 where
  red yellow purple other : Severity

pub data LineRef : Type 0 where
  missing : LineRef
  at : Text → LineRef

pub record Finding : Type 0 where
  pub severity : Severity
  pub file : Text
  pub line : LineRef
  pub evidence : Text
  pub claim : String

abbrev pub is_red : Severity → Bool
is_red red = true
is_red _ = false

abbrev pub is_yellow : Severity → Bool
is_yellow yellow = true
is_yellow _ = false

abbrev pub is_purple : Severity → Bool
is_purple purple = true
is_purple _ = false

unfoldable pub counts_of : List Finding → Counts
counts_of fs = record {
  red = length (select (λ f. is_red f.severity) fs);
  yellow = length (select (λ f. is_yellow f.severity) fs);
  purple = length (select (λ f. is_purple f.severity) fs);
}

pub data Reject : Type 0 where
  no_file_line no_citation file_not_in_diff citation_not_in_diff : Reject

abbrev pub empty_text : Text → Bool
empty_text [] = true
empty_text (c ∷ s) = false

-- `file` of the loop and the texts that each file has got.
abbrev pub Added : Type 0
Added = List (Text × Text)

abbrev pub em_dash : ℕ
em_dash = 8212

abbrev pub lookup_line : LineRef → Bool
lookup_line missing = true
lookup_line (at t) = empty_text t

module _ (is_space : ℕ → Bool) where
  abbrev pub lstrip : Text → Text
  lstrip [] = []
  lstrip (c ∷ s) = let rest = lstrip s in if is_space c then rest else c ∷ s

  abbrev pub all_space : Text → Bool
  all_space [] = true
  all_space (c ∷ s) = is_space c && all_space s

  abbrev pub rstrip : Text → Text
  rstrip [] = []
  rstrip (c ∷ s) = let rest = rstrip s in if all_space (c ∷ s) then [] else c ∷ rest

  -- `s.strip()`
  abbrev pub strip : Text → Text
  strip s = rstrip (lstrip s)

  -- Runs of spaces become one space.
  abbrev pub squeeze : Text → Text
  squeeze [] = []
  squeeze (c ∷ []) = (if is_space c then b' ' else c) ∷ []
  squeeze (c ∷ (d ∷ s)) =
      let rest = squeeze (d ∷ s) in
      if is_space c then (if is_space d then rest else b' ' ∷ rest) else c ∷ rest

  -- `" ".join(s.split())`
  unfoldable pub normalize : Text → Text
  normalize s = squeeze (strip s)

  abbrev pub drop_prefix : ℕ → Text → Text
  drop_prefix n s = drop n s

  abbrev pub file_of : Text → Option Text
  file_of path =
      let bare = if starts_with (codes "b/") path then drop_prefix 2 path else path in
      if text_eq bare (codes "/dev/null") then none else some bare

  abbrev pub add_text : Text → Text → Added → Added
  add_text file txt rest = if empty_text txt then rest else (file, txt) ∷ rest

  -- The loop over the lines: `cur` is the current file.
  unfoldable pub added_texts : Option Text → List Text → Added
  unfolding normalize
  added_texts cur [] = []
  added_texts cur (line ∷ lines) =
      let header = added_texts (file_of (strip (drop_prefix 4 line))) lines in
      let rest = added_texts cur lines in
      if starts_with (codes "+++ ") line then header else elim cur [
        | none ↦ rest
        | some file ↦
            if starts_with (codes "+") line && not (starts_with (codes "+++") line)
            then add_text file (normalize (drop_prefix 1 line)) rest
            else rest
      ]

  abbrev pub init : Text → Text
  init [] = []
  init (c ∷ []) = []
  init (c ∷ (d ∷ s)) = c ∷ init (d ∷ s)

  abbrev pub ends_in_tick : Text → Bool
  ends_in_tick [] = false
  ends_in_tick (c ∷ []) = c == b'`'
  ends_in_tick (c ∷ (d ∷ s)) = ends_in_tick (d ∷ s)

  -- a code span of Markdown, of two characters at least
  abbrev pub unwrap_span : Text → Text
  unwrap_span [] = []
  unwrap_span (c ∷ s) = if c == b'`' && ends_in_tick s then strip (init s) else c ∷ s

  abbrev pub unwrap_mark : Text → Text
  unwrap_mark [] = []
  unwrap_mark (c ∷ s) = if c == b'+' || c == b'-' then strip s else c ∷ s

  unfoldable pub unwrap_citation : Text → Text
  unwrap_citation tail = unwrap_mark (unwrap_span (strip tail))

  -- what follows the first dash
  abbrev pub after_dash : Text → Option Text
  after_dash [] = none
  after_dash (c ∷ s) = if c == em_dash then some s else after_dash s

  abbrev pub nonempty_text : Text → Option Text
  nonempty_text [] = none
  nonempty_text (c ∷ s) = some (c ∷ s)

  abbrev pub unwrapped : Option Text → Option Text
  unwrapped none = none
  unwrapped (some tail) = nonempty_text (unwrap_citation tail)

  unfoldable pub extract_citation : Text → Option Text
  unfolding unwrap_citation
  extract_citation evidence = unwrapped (after_dash evidence)

  abbrev pub of_file : Text → Text × Text → Bool
  of_file file e = text_eq e.0 file

  abbrev pub cited : Text → Text → Text × Text → Bool
  cited file needle e = text_eq e.0 file && contains needle e.1

  abbrev pub check_citation : Text → Added → Option Text → Option Reject
  check_citation file added none = some no_citation
  check_citation file added (some citation) =
      if not (any (of_file file) added)
      then some file_not_in_diff
      else if any (cited file (normalize citation)) added
      then none
      else some citation_not_in_diff

  unfoldable pub reject_reason : Added → Finding → Option Reject
  unfolding extract_citation normalize
  reject_reason added f =
      if empty_text f.file || lookup_line f.line
      then some no_file_line
      else check_citation f.file added (extract_citation f.evidence)

  abbrev pub is_kept : Option Reject → Bool
  is_kept none = true
  is_kept (some r) = false

  -- The kept findings and the rejected ones.
  unfoldable pub partition_findings : Added → List Finding → List Finding × List Finding
  unfolding reject_reason
  partition_findings added [] = ([], [])
  partition_findings added (f ∷ fs) =
      let rest = partition_findings added fs in
      if is_kept (reject_reason added f) then (f ∷ rest.0, rest.1) else (rest.0, f ∷ rest.1)

  pub record Verdict : Type 0 where
    pub reviewed_sha : Option String
    pub counts : Counts
    pub findings : List Finding
    pub rejected : List Finding

  abbrev pub judged : Option (List Text) → List Finding → List Finding × List Finding
  judged none findings = (findings, [])
  judged (some lines) findings = partition_findings (added_texts none lines) findings

  unfoldable pub build_verdict : Option String → Option (List Text) → List Finding → Verdict
  unfolding partition_findings added_texts counts_of
  build_verdict sha diff findings =
      let out = judged diff findings in
      record { reviewed_sha = sha; counts = counts_of out.0; findings = out.0; rejected = out.1 }

  abbrev pub given : Option String → Bool
  given none = false
  given (some s) = truthy s

  unfoldable pub is_fresh : Option Verdict → Option String → Bool
  is_fresh none current_sha = false
  is_fresh (some v) current_sha = given current_sha && opt_str_eq v.reviewed_sha current_sha

  unfoldable pub gate_blocking : Option Verdict → Bool
  gate_blocking none = false
  gate_blocking (some v) = ltb 0 v.counts.red

  abbrev pub status_of : Option Verdict → Option String → ReviewStatus
  status_of none current_sha = record {
    present = false;
    fresh = false;
    blocking = false;
    counts = none;
    reviewed_sha = none;
  }
  status_of (some v) current_sha = record {
    present = true;
    fresh = is_fresh (some v) current_sha;
    blocking = gate_blocking (some v);
    counts = some v.counts;
    reviewed_sha = v.reviewed_sha;
  }

  -- `status`: the argument is what `read_verdict` reads.
  unfoldable pub status : Option Verdict → Option String → ReviewStatus
  unfolding is_fresh gate_blocking
  status stored current_sha = status_of stored current_sha
