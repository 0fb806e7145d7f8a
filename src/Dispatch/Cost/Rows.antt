-- ===== src/Dispatch/Cost/Rows.antt =====
-- src/forgemaster/dispatch/cost.py: _blank, _add and the query of project_cost.
use forgemaster.Prelude.{
  ℕ, suc, ◌+◌, String, Bool, Option, none, some, List, [], ◌∷◌, str_eq, if◌then◌else◌, select_one,
}
use forgemaster.Roadmap.Rows.{Store, order_by_slug}
use forgemaster.Dispatch.Jobs.{Job}

pub record Doubles : Type 0 where
  pub plus : ℕ → ℕ → ℕ
  pub above : ℕ → ℕ → Bool

-- A row of the query: a job with the slugs of its feature and its task.
pub record Row : Type 0 where
  pub feature : String
  pub task_slug : String
  pub job : Job

-- `_blank`
pub record Acc : Type 0 where
  pub cost_usd : ℕ
  pub input : ℕ
  pub output : ℕ
  pub cache_read : ℕ
  pub cache_creation : ℕ
  pub tokens : ℕ
  pub n_jobs : ℕ

abbrev pub blank_acc : Acc
blank_acc = record {
  cost_usd = 0;
  input = 0;
  output = 0;
  cache_read = 0;
  cache_creation = 0;
  tokens = 0;
  n_jobs = 0;
}

-- `row[…] or 0`
abbrev pub or_zero : Option ℕ → ℕ
or_zero none = 0
or_zero (some n) = n

-- `_add`
unfoldable pub add_row : Doubles → Row → Acc → Acc
add_row floats r acc =
    let u = r.job.usage in
    let i = or_zero u.input_tokens in
    let o = or_zero u.output_tokens in
    let cr = or_zero u.cache_read_tokens in
    let cc' = or_zero u.cache_creation_tokens in
    record {
      cost_usd = floats.plus acc.cost_usd (or_zero u.cost);
      input = acc.input + i;
      output = acc.output + o;
      cache_read = acc.cache_read + cr;
      cache_creation = acc.cache_creation + cc';
      tokens = acc.tokens + (i + o + cr + cc');
      n_jobs = suc acc.n_jobs;
    }

-- A dict in the order of its insertions: the value of a key is changed, or put in at the end.
module _ {ℓ} {A : Type ℓ} (is_key : A → Bool) (fresh : A) (f : A → A) where
  unfoldable pub upsert : List A → List A
  upsert [] = f fresh ∷ []
  upsert (x ∷ xs) = let rest = upsert xs in if is_key x then f x ∷ xs else x ∷ rest

-- The query: the jobs of the project, each joined to its task and feature by their primary keys.
unfoldable pub row_of : Store → String → Job → Option Row
row_of db slug j = elim (select_one (λ t. str_eq t.id j.task_id) db.tasks) [
  | none ↦ none
  | some t ↦ elim (select_one (λ f. str_eq f.id t.feature_id) db.features) [
    | none ↦ none
    | some f ↦ elim (select_one (λ p. str_eq p.id f.project_id) db.projects) [
      | none ↦ none
      | some p ↦
          if str_eq p.slug slug
          then some (record { feature = f.slug; task_slug = t.slug; job = j })
          else none
    ]
  ]
]

unfoldable pub joined : Store → String → List Job → List Row
unfolding row_of
joined db slug [] = []
joined db slug (j ∷ js) =
    let rest = joined db slug js in elim (row_of db slug j) [ none ↦ rest | some r ↦ r ∷ rest ]

-- ORDER BY f.slug, t.slug
unfoldable pub rows_of : Store → String → List Job → List Row
unfolding order_by_slug joined
rows_of db slug jobs =
    order_by_slug (λ r. r.feature) (order_by_slug (λ r. r.task_slug) (joined db slug jobs))
