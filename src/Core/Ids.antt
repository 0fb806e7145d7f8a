-- ===== src/Core/Ids.antt =====
-- src/forgemaster/core/ids.py: the kebab-case slugs that end in branch names, paths and commands.
use forgemaster.Prelude.{
  ℕ, String, ◌≡◌, ◌⊎◌, refl, Bool, true, false, ◌&&◌, ◌||◌, List, [], ◌∷◌, arith, leb, ◌==◌, All,
  Bool-cases, inl, inr, if◌then◌else◌,
}
use forgemaster.Prelude.Text.{Text, codes}

-- [a-z0-9]
abbrev pub alnum : ℕ → Bool
alnum c = (leb b'a' c && leb c b'z') || (leb b'0' c && leb c b'9')

-- The automaton of `[a-z0-9]+(?:-[a-z0-9]+)*`: `inside` after a letter or digit, else one must come.
unfoldable pub slug_match : Bool → Text → Bool
slug_match inside [] = inside
slug_match inside (c ∷ s) =
    let word = slug_match true s in
    let dash = slug_match false s in
    if alnum c then word else if c == b'-' then (if inside then dash else false) else false

unfoldable pub is_slug : String → Bool
unfolding slug_match
is_slug value = slug_match false (codes value)

pub data SlugResult : Type 0 where
  slug : String → SlugResult
  value_error : SlugResult

unfoldable pub ensure_slug : String → SlugResult
ensure_slug value = if is_slug value then slug value else value_error

abbrev pub IsSlugChar : ℕ → Type 0
IsSlugChar c = (alnum c ≡ true) ⊎ (c ≡ b'-')

-- The dash-separated words of a text, and the segments that the expression asks for.
abbrev pub cons_word : ℕ → List Text → List Text
cons_word c [] = (c ∷ []) ∷ []
cons_word c (w ∷ ws) = (c ∷ w) ∷ ws

abbrev pub words : Text → List Text
words [] = [] ∷ []
words (c ∷ s) = if c == b'-' then [] ∷ words s else cons_word c (words s)

abbrev pub all_alnum : Text → Bool
all_alnum [] = true
all_alnum (c ∷ s) = alnum c && all_alnum s

abbrev pub filled : Text → Bool
filled [] = false
filled (c ∷ s) = all_alnum (c ∷ s)

abbrev pub all_filled : List Text → Bool
all_filled [] = true
all_filled (w ∷ ws) = filled w && all_filled ws

-- inside a word its rest may be empty
abbrev pub rest_filled : List Text → Bool
rest_filled [] = true
rest_filled (w ∷ ws) = all_alnum w && all_filled ws

cons_word_filled :
    (c : ℕ) (ws : List Text)
    → (all_filled (cons_word c ws) ≡ (alnum c && rest_filled ws))
      × (rest_filled (cons_word c ws) ≡ (alnum c && rest_filled ws))
cons_word_filled c [] = (ground arith, ground arith)
cons_word_filled c (w ∷ ws) = (ground arith, ground arith)

slug_words :
    (s : Text)
    → (slug_match false s ≡ all_filled (words s)) × (slug_match true s ≡ rest_filled (words s))
unfolding slug_match
slug_words [] = (refl, refl)
slug_words (c ∷ s) =
    let (start, inner) = slug_words s in
    let (a, r) = cons_word_filled c (words s) in (ground arith, ground arith)

slug_chars : (inside : Bool) (s : Text) → slug_match inside s ≡ true → All IsSlugChar s
unfolding slug_match
slug_chars inside [] h = tt
slug_chars inside (c ∷ s) h = elim (Bool-cases (alnum c)) [
  | inl word ↦ (inl word, slug_chars true s (rw word at h))
  | inr other ↦ (inr (ground arith), slug_chars false s (ground arith))
]

-- A text is a slug exactly when each of its parts between dashes is a nonempty word of lower-case
-- letters and digits.
pub is_slug-words : (value : String) → is_slug value ≡ all_filled (words (codes value))
unfolding is_slug
is_slug-words value = (slug_words (codes value)).0

-- A slug that `ensure_slug` lets through holds no character but lower-case letters, digits and
-- dashes: no slash, dot, space or quote reaches a path or a command.
pub ensure_slug-IsSlugChar :
    (value checked : String)
    → ensure_slug value ≡ slug checked
    → (checked ≡ value) × All IsSlugChar (codes value)
unfolding ensure_slug is_slug
ensure_slug-IsSlugChar value checked h = elim (Bool-cases (slug_match false (codes value))) [
  | inl good ↦ (ground arith, slug_chars false (codes value) good)
  | inr bad ↦ absurd (ground arith)
]
