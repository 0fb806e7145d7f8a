-- ===== src/Prelude/Text.antt =====
-- Texts that the code walks (paths, diffs, slugs): lists of code points.
use Prim.Native.Nat.{ℕ}
use Prim.Native.Char.{code}
use Prim.Native.String.{String}
use mathlib.Core.Bool.{Bool, true, false, ◌&&◌, ◌||◌}
use mathlib.Core.List.{List, [], ◌∷◌}
use mathlib.Core.Path.{◌≡◌, refl}
use mathlib.Core.Logic.{◌↔◌}
use native.Mathlib.Omega.{arith}
use forgemaster.Prelude.Tests.{◌==◌, if◌then◌else◌}

abbrev pub Text : Type 0
Text = List ℕ

-- the code points of a literal
abbrev pub codes : String → Text
codes String.[] = []
codes (String.◌∷◌ c s) = code c ∷ codes s

abbrev pub text_eq : Text → Text → Bool
text_eq [] [] = true
text_eq (a ∷ s) (b ∷ t) = a == b && text_eq s t
text_eq _ _ = false

-- `s.startswith(p)`, the prefix first
abbrev pub starts_with : Text → Text → Bool
starts_with [] s = true
starts_with (a ∷ p) [] = false
starts_with (a ∷ p) (b ∷ s) = a == b && starts_with p s

-- `s.endswith(p)`
abbrev pub ends_with : Text → Text → Bool
ends_with p [] = text_eq p []
ends_with p (c ∷ s) = text_eq p (c ∷ s) || ends_with p s

-- `p in s`
abbrev pub contains : Text → Text → Bool
contains p [] = text_eq p []
contains p (c ∷ s) = starts_with p (c ∷ s) || contains p s

-- a test by several suffixes or parts
abbrev pub ends_with_any : List Text → Text → Bool
ends_with_any [] s = false
ends_with_any (p ∷ ps) s = ends_with p s || ends_with_any ps s

abbrev pub contains_any : List Text → Text → Bool
contains_any [] s = false
contains_any (p ∷ ps) s = contains p s || contains_any ps s

abbrev pub text_mem : Text → List Text → Bool
text_mem s [] = false
text_mem s (t ∷ ts) = text_eq s t || text_mem s ts

abbrev pub after_last : ℕ → Text → Text → Text
after_last sep best [] = best
after_last sep best (c ∷ s) = after_last sep (if c == sep then s else best) s

-- `s.rsplit(sep, 1)[-1]`
abbrev pub last_part : ℕ → Text → Text
last_part sep s = after_last sep s s

pub text_eq_refl : (t : Text) → text_eq t t ≡ true
text_eq_refl [] = refl
text_eq_refl (c ∷ t) = ground (arith, text_eq_refl t)

pub text_eq_sound : (a b : Text) → text_eq a b ≡ true → a ≡ b
text_eq_sound [] [] h = refl
text_eq_sound [] (y ∷ b) h = absurd (cc)
text_eq_sound (x ∷ a) [] h = absurd (cc)
text_eq_sound (x ∷ a) (y ∷ b) h =
    let head : x ≡ y = ground (arith, h) in
    let tail : text_eq a b ≡ true = ground (arith, h) in cc (head, text_eq_sound a b tail)

pub text_eq_iff : (a b : Text) → (text_eq a b ≡ true) ↔ (a ≡ b)
text_eq_iff a b = (text_eq_sound a b, λ e. rw e (text_eq_refl b))
