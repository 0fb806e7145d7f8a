-- ===== src/Snapshot/Choice.antt =====
-- `_premier_du_schema` of src/forgemaster/snapshot.py: the venv that is chosen for a schema.
use forgemaster.Prelude.{
  ℕ, String, ◌≡◌, refl, Bool, true, false, ◌&&◌, Option, none, some, List, [], ◌∷◌, ◌==◌, any,
  arith, inl, inr, ◌⊎◌, str_eq, eq_iff,
}
use forgemaster.Snapshot.{Disk, first_venv, reads, is_paired, or_else, first_of_schema}

-- the venv is in the list and reads the schema
abbrev pub offers : String → ℕ → List (String × ℕ) → Bool
offers v wanted = any (λ e. str_eq (e.0) v && e.1 == wanted)

-- What a search with a test that asks for the schema finds.
first_venv-offers :
    (p : String × ℕ → Bool) (wanted : ℕ) (venvs : List (String × ℕ)) (v : String)
    → ((e : String × ℕ) → p e ≡ true → (e.1 == wanted) ≡ true)
    → first_venv p venvs ≡ some v
    → offers v wanted venvs ≡ true
unfolding first_venv
first_venv-offers p wanted [] v k h = absurd (cc)
first_venv-offers p wanted (e ∷ es) v k h =
    ground (arith, h, k e, first_venv-offers p wanted es v k, eq_iff (e.0) v)

first_venv-any :
    (p : String × ℕ → Bool) (venvs : List (String × ℕ))
    → first_venv p venvs ≡ none
    → any p venvs ≡ false
unfolding first_venv
first_venv-any p [] h = refl
first_venv-any p (e ∷ es) h = ground (arith, h, first_venv-any p es)

or_else-some :
    (a b : Option String) (v : String) → or_else a b ≡ some v → (a ≡ some v) ⊎ (b ≡ some v)
or_else-some (some w) b v h = inl h
or_else-some none b v h = inr h

is_paired-reads :
    (disk : Disk) (wanted : ℕ) (paired : String) (e : String × ℕ)
    → is_paired disk wanted paired e ≡ true
    → (e.1 == wanted) ≡ true
is_paired-reads disk wanted paired e h = ground (arith, h)

-- The venv that is chosen is one of the list, and it reads the schema.
pub first_of_schema-offers :
    (disk : Disk) (venvs : List (String × ℕ)) (wanted : ℕ) (paired : Option String) (v : String)
    → first_of_schema disk venvs wanted paired ≡ some v
    → offers v wanted venvs ≡ true
unfolding first_of_schema
first_of_schema-offers disk venvs wanted none v h =
    first_venv-offers (reads wanted) wanted venvs v (λ e k. k) h
first_of_schema-offers disk venvs wanted (some paired) v h =
    elim (or_else-some (first_venv (is_paired disk wanted paired) venvs)
      (first_venv (reads wanted) venvs) v h) [
        | inl k ↦
            first_venv-offers (is_paired disk wanted paired) wanted venvs v
              (is_paired-reads disk wanted paired) k
        | inr k ↦ first_venv-offers (reads wanted) wanted venvs v (λ e l. l) k
      ]

or_else-none : (a b : Option String) → or_else a b ≡ none → b ≡ none
or_else-none (some w) b h = absurd (cc)
or_else-none none b h = h

-- No venv is chosen only when none reads the schema.
pub first_of_schema-none :
    (disk : Disk) (venvs : List (String × ℕ)) (wanted : ℕ) (paired : Option String)
    → first_of_schema disk venvs wanted paired ≡ none
    → any (reads wanted) venvs ≡ false
unfolding first_of_schema
first_of_schema-none disk venvs wanted none h = first_venv-any (reads wanted) venvs h
first_of_schema-none disk venvs wanted (some paired) h =
    first_venv-any (reads wanted) venvs
      (or_else-none (first_venv (is_paired disk wanted paired) venvs) _ h)

offers-reads :
    (v : String) (wanted : ℕ) (venvs : List (String × ℕ))
    → offers v wanted venvs ≡ true
    → any (reads wanted) venvs ≡ true
offers-reads v wanted [] h = h
offers-reads v wanted (e ∷ es) h = ground (arith, h, offers-reads v wanted es)

pub first_of_schema-some :
    (disk : Disk) (venvs : List (String × ℕ)) (wanted : ℕ) (paired : Option String) (v : String)
    → first_of_schema disk venvs wanted paired ≡ some v
    → any (reads wanted) venvs ≡ true
first_of_schema-some disk venvs wanted paired v h =
    offers-reads v wanted venvs (first_of_schema-offers disk venvs wanted paired v h)
