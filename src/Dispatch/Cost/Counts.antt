-- ===== src/Dispatch/Cost/Counts.antt =====
-- The counts of the accumulators of src/forgemaster/dispatch/cost.py, and what a job is worth.
use forgemaster.Prelude.{
  ℕ, ◌+◌, ◌≡◌, refl, Bool, Option, none, some, List, [], ◌∷◌, arith, All, Bool-cases, inl, inr,
}
use forgemaster.Dispatch.Cost.Rows.{Doubles, Row, Acc, blank_acc, or_zero, add_row, upsert}
use forgemaster.Dispatch.Cost.Interview.{InterviewCost}

-- The whole numbers of an accumulator.
pub data Count : Type 0 where
  input output cache_read cache_creation tokens n_jobs : Count

abbrev pub count : Count → Acc → ℕ
count input acc = acc.input
count output acc = acc.output
count cache_read acc = acc.cache_read
count cache_creation acc = acc.cache_creation
count tokens acc = acc.tokens
count n_jobs acc = acc.n_jobs

-- What one job is worth, read off its usage.
abbrev pub worth : Count → Row → ℕ
worth input r = or_zero r.job.usage.input_tokens
worth output r = or_zero r.job.usage.output_tokens
worth cache_read r = or_zero r.job.usage.cache_read_tokens
worth cache_creation r = or_zero r.job.usage.cache_creation_tokens
worth tokens r =
    or_zero r.job.usage.input_tokens
    + or_zero r.job.usage.output_tokens
    + or_zero r.job.usage.cache_read_tokens
    + or_zero r.job.usage.cache_creation_tokens
worth n_jobs r = 1

-- What the interviews are worth: they are no jobs.
abbrev pub interview_worth : Count → Option InterviewCost → ℕ
interview_worth k none = 0
interview_worth input (some i) = i.input
interview_worth output (some i) = i.output
interview_worth cache_read (some i) = i.cache_read
interview_worth cache_creation (some i) = i.cache_creation
interview_worth tokens (some i) = i.tokens
interview_worth n_jobs (some i) = 0

module _ {ℓ} {A : Type ℓ} (m : A → ℕ) where
  unfoldable pub sum : List A → ℕ
  sum [] = 0
  sum (x ∷ xs) = m x + sum xs

  -- A change by w of the entry of a key changes the sum by w.
  pub sum-upsert :
      (is_key : A → Bool) (fresh : A) (f : A → A) (w : ℕ) (xs : List A)
      → m fresh ≡ 0
      → ((x : A) → m (f x) ≡ m x + w)
      → sum (upsert is_key fresh f xs) ≡ sum xs + w
  unfolding sum upsert
  sum-upsert is_key fresh f w [] h k = omega (arith, h, k fresh)
  sum-upsert is_key fresh f w (x ∷ xs) h k = ground (arith, k x, sum-upsert is_key fresh f w xs h k)

-- What every entry has, and the change keeps, every entry has afterwards.
pub All-upsert {ℓ κ} :
    {A : Type ℓ} (P : A → Type κ) (is_key : A → Bool) (fresh : A) (f : A → A) (xs : List A)
    → P fresh
    → ((x : A) → P x → P (f x))
    → All P xs
    → All P (upsert is_key fresh f xs)
unfolding upsert
All-upsert P is_key fresh f [] h k hs = (k fresh h, tt)
All-upsert P is_key fresh f (x ∷ xs) h k hs = elim (Bool-cases (is_key x)) [
  | inl e ↦ rw e (k x hs.0, hs.1)
  | inr e ↦ rw e (hs.0, All-upsert P is_key fresh f xs h k hs.1)
]

pub count-add_row :
    (floats : Doubles) (k : Count) (r : Row) (acc : Acc)
    → count k (add_row floats r acc) ≡ count k acc + worth k r
unfolding add_row
count-add_row floats input r acc = refl
count-add_row floats output r acc = refl
count-add_row floats cache_read r acc = refl
count-add_row floats cache_creation r acc = refl
count-add_row floats tokens r acc = refl
count-add_row floats n_jobs r acc = omega arith

pub count-blank : (k : Count) → count k blank_acc ≡ 0
count-blank input = refl
count-blank output = refl
count-blank cache_read = refl
count-blank cache_creation = refl
count-blank tokens = refl
count-blank n_jobs = refl
