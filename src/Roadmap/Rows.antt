-- ===== src/Roadmap/Rows.antt =====
-- The rows of projects, features and tasks of src/forgemaster/db/schema.py, and the reads of
-- src/forgemaster/roadmap/model.py. `depends_on` is the decoded list.
use forgemaster.Prelude.{
  String, Bool, true, false, ◌&&◌, Option, none, some, List, [], ◌∷◌, ltb, ◌==◌, str_eq,
  if◌then◌else◌, select, select_one,
}
use forgemaster.Prelude.Text.{Text, codes}
use Prim.Native.Char.{code}

pub data FeatureStatus : Type 0 where
  planned active ready merged cancelled : FeatureStatus

pub data TaskStatus : Type 0 where
  todo in_progress done blocked cancelled : TaskStatus

pub data Priority : Type 0 where
  p0 p1 p2 p3 : Priority

pub data Mode : Type 0 where
  headless interactive : Mode

pub record Project : Type 0 where
  pub id : String
  pub slug : String
  pub project_type : Option String
  pub sot_path : String
  pub credential_ref : Option String

pub record Feature : Type 0 where
  pub id : String
  pub project_id : String
  pub slug : String
  pub title : String
  pub branch : String
  pub worktree_path : Option String
  pub status : FeatureStatus
  pub facet : Option String
  pub blueprint : Option String
  pub depends_on : List String
  pub created_at : String

pub record Task : Type 0 where
  pub id : String
  pub feature_id : String
  pub slug : String
  pub title : String
  pub status : TaskStatus
  pub depends_on : List String
  pub priority : Priority
  pub acceptance : Option String
  pub mode : Mode
  pub created_at : String

pub record Store : Type 0 where
  pub projects : List Project
  pub features : List Feature
  pub tasks : List Task

-- What a call returns or raises.
pub data Result {ℓ} (A : Type ℓ) : Type ℓ where
  returned : A → Result A
  value_error : Result A
  key_error : Result A

abbrev pub bind {ℓ κ} : {A : Type ℓ} {B : Type κ} → Result A → (A → Result B) → Result B
bind (returned a) f = f a
bind value_error f = value_error
bind key_error f = key_error

abbrev pub or_key_error {ℓ} : {A : Type ℓ} → Option A → Result A
or_key_error none = key_error
or_key_error (some a) = returned a

-- `ref.split("/", 1)`, None without a slash
unfoldable pub split_ref : String → Option (String × String)
split_ref String.[] = none
split_ref (String.◌∷◌ c s) =
    let rest = split_ref s in
    if code c == b'/'
    then some ("", s)
    else elim rest [ none ↦ none | some (p, f) ↦ some (String.◌∷◌ c p, f) ]

-- `a <= b` on the texts that ORDER BY compares
abbrev pub text_leb : Text → Text → Bool
text_leb [] t = true
text_leb (a ∷ s) [] = false
text_leb (a ∷ s) (b ∷ t) = let rest = text_leb s t in if a == b then rest else ltb a b

module _ {ℓ} {A : Type ℓ} (slug_of : A → String) where
  abbrev pub place : A → List A → List A
  place x [] = x ∷ []
  place x (y ∷ ys) =
      let rest = place x ys in
      if text_leb (codes (slug_of x)) (codes (slug_of y)) then x ∷ (y ∷ ys) else y ∷ rest

  -- ORDER BY slug
  unfoldable pub order_by_slug : List A → List A
  order_by_slug [] = []
  order_by_slug (x ∷ xs) = place x (order_by_slug xs)

unfoldable pub get_project : Store → String → Result Project
get_project db project_slug =
    or_key_error (select_one (λ p. str_eq p.slug project_slug) db.projects)

abbrev pub feature_at : String → String → Feature → Bool
feature_at project_id feature_slug f = str_eq f.project_id project_id && str_eq f.slug feature_slug

unfoldable pub resolve_feature : Store → String → Result Feature
unfolding get_project split_ref
resolve_feature db ref = elim (split_ref ref) [
  | none ↦ value_error
  | some (project_slug, feature_slug) ↦
      bind (get_project db project_slug)
        (λ project. or_key_error (select_one (feature_at project.id feature_slug) db.features))
]

unfoldable pub list_features : Store → String → Result (List Feature)
unfolding get_project order_by_slug
list_features db project_slug = bind (get_project db project_slug) (λ project.
    returned
      (order_by_slug (λ f. f.slug) (select (λ f. str_eq f.project_id project.id) db.features)))

unfoldable pub list_tasks : Store → String → List Task
unfolding order_by_slug
list_tasks db feature_id =
    order_by_slug (λ t. t.slug) (select (λ t. str_eq t.feature_id feature_id) db.tasks)
