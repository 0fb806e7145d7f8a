-- ===== src/Dispatch/Cost/Interview.antt =====
-- src/forgemaster/dispatch/cost.py: _tok, _sum_interview_transcript and _interview_cost.
--
-- A transcript is the outcome of json.loads on each line that could be read, nothing for an empty line and
-- for a JSONDecodeError. A line that is a document but no object raises AttributeError: the answer none.
use forgemaster.Prelude.{
  ℕ, suc, zero, ◌+◌, String, Bool, Option, none, some, List, [], ◌∷◌, ltb, if◌then◌else◌,
}
use forgemaster.Prelude.Text.{Text, text_eq}
use forgemaster.Update.{Json, num, str, obj, Members, lookup}

-- What the column and the files hold: the ids of the interviews of a project, whether the directory of
-- the transcripts is there, the transcript of an id, and the value of a number that is a natural one.
pub record Home : Type 0 where
  pub session_ids : String → List String
  pub is_dir : Bool
  pub transcript : String → Option (List (Option Json))
  pub int_of : Text → Option ℕ

-- `_blank_interview`, whose cost is None throughout
pub record InterviewCost : Type 0 where
  pub cost_usd : Option ℕ
  pub input : ℕ
  pub output : ℕ
  pub cache_read : ℕ
  pub cache_creation : ℕ
  pub tokens : ℕ
  pub model : Option Text
  pub n_sessions : ℕ

abbrev pub blank_interview : InterviewCost
blank_interview = record {
  cost_usd = none;
  input = 0;
  output = 0;
  cache_read = 0;
  cache_creation = 0;
  tokens = 0;
  model = none;
  n_sessions = 0;
}

-- `_tok`: anything but a number counts 0. A count of tokens is taken not to be negative.
abbrev pub tok : Home → Option Json → ℕ
tok home (some (num t)) = elim (home.int_of t) [ none ↦ 0 | some n ↦ n ]
tok home _ = 0

-- `acc` and `model_out`
pub record Sum : Type 0 where
  pub acc : InterviewCost
  pub model_out : List (Text × ℕ)

unfoldable pub add_output : Text → ℕ → List (Text × ℕ) → List (Text × ℕ)
add_output m o [] = (m, o) ∷ []
add_output m o ((k, n) ∷ es) =
    let rest = add_output m o es in if text_eq k m then (k, n + o) ∷ es else (k, n) ∷ rest

-- `isinstance(m, str) and m`
abbrev pub count_model : Option Json → ℕ → List (Text × ℕ) → List (Text × ℕ)
count_model (some (str (c ∷ cs))) o models = add_output (c ∷ cs) o models
count_model _ o models = models

unfoldable pub add_usage : Home → Members → Members → Sum → Sum
unfolding add_output
add_usage home u msg s =
    let i = tok home (lookup "input_tokens" u) in
    let o = tok home (lookup "output_tokens" u) in
    let cr = tok home (lookup "cache_read_input_tokens" u) in
    let cc' = tok home (lookup "cache_creation_input_tokens" u) in
    record {
      acc = record s.acc {
        input = s.acc.input + i;
        output = s.acc.output + o;
        cache_read = s.acc.cache_read + cr;
        cache_creation = s.acc.cache_creation + cc';
        tokens = s.acc.tokens + (i + o + cr + cc');
      };
      model_out = count_model (lookup "model" msg) o s.model_out;
    }

-- `isinstance(msg.get("usage"), dict)`
abbrev pub on_usage : Home → Option Json → Members → Sum → Sum
on_usage home (some (obj u)) msg s = add_usage home u msg s
on_usage home _ msg s = s

-- `isinstance(msg, dict)`
abbrev pub on_message : Home → Option Json → Sum → Sum
on_message home (some (obj msg)) s = on_usage home (lookup "usage" msg) msg s
on_message home _ s = s

-- one line
unfoldable pub on_line : Home → Option Json → Sum → Option Sum
unfolding add_usage lookup
on_line home none s = some s
on_line home (some (obj line)) s = some (on_message home (lookup "message" line) s)
on_line home (some _) s = none

unfoldable pub sum_interview_transcript : Home → List (Option Json) → Sum → Option Sum
unfolding on_line
sum_interview_transcript home [] s = some s
sum_interview_transcript home (line ∷ lines) s = elim (on_line home line s) [
  | none ↦ none
  | some s' ↦ sum_interview_transcript home lines s'
]

-- `acc["n_sessions"] += 1`
abbrev pub count_session : Sum → Sum
count_session s = record s { acc = record s.acc { n_sessions = suc s.acc.n_sessions } }

-- the loop over the ids
unfoldable pub sum_sessions : Home → List String → Sum → Option Sum
unfolding sum_interview_transcript
sum_sessions home [] s = some s
sum_sessions home (sid ∷ sids) s = elim (home.transcript sid) [
  | none ↦ sum_sessions home sids s
  | some lines ↦ elim (sum_interview_transcript home lines (count_session s)) [
    | none ↦ none
    | some s' ↦ sum_sessions home sids s'
  ]
]

-- `max(model_out, key=…)`, the first of the greatest; None without a model
unfoldable pub dominant : Option (Text × ℕ) → List (Text × ℕ) → Option Text
dominant none [] = none
dominant (some best) [] = some best.0
dominant none (e ∷ es) = dominant (some e) es
dominant (some best) (e ∷ es) = dominant (some (if ltb best.1 e.1 then e else best)) es

-- `if acc["n_sessions"] == 0: return None`, else the model
abbrev pub closed_interview : ℕ → Sum → Option InterviewCost
closed_interview zero s = none
closed_interview (suc n) s = some (record s.acc { model = dominant none s.model_out })

abbrev pub all_sessions : Home → List String → Option Sum
all_sessions home sids =
    let blank_sum : Sum = record { acc = blank_interview; model_out = [] } in
    if home.is_dir then sum_sessions home sids blank_sum else some blank_sum

-- `_interview_cost`: some none where it gives None. Without ids no session is counted.
unfoldable pub interview_cost : Home → String → Option (Option InterviewCost)
unfolding sum_sessions dominant
interview_cost home slug = elim (all_sessions home (home.session_ids slug)) [
  | none ↦ none
  | some s ↦ some (closed_interview s.acc.n_sessions s)
]
