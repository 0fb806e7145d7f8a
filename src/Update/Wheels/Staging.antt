-- ===== src/Update/Wheels/Staging.antt =====
-- What `stage_wheel` of src/forgemaster/update.py leaves in the area, refused or accepted.
use mathlib.Core.List.{append-nil, append_assoc}
use forgemaster.Prelude.{
  ℕ, ◌≤◌, ◌≡◌, refl, true, false, Option, none, some, List, [], ◌∷◌, ◌++◌, any, length, ltb, leb,
  arith, ◌==◌, ◌⊎◌, inl, inr, Bool-cases, sym, ◌∙◌, ap, subst, All,
}
use forgemaster.Prelude.Text.{Text}
use forgemaster.Update.{Bytes}
use forgemaster.Update.Publish.{lstrip, rstrip}
use forgemaster.Update.Wheels.{
  Place, Deposit, Refusal, is_bare, is_control, is_wheel_name, check_name, valide_nom_de_wheel,
  receive, insert, deposit, prune_wheels, keep_wheels, stage_bytes, stage_named, stage_wheel,
  upload_rejected, type_rejected,
}

-- all the bytes that were sent
abbrev pub whole : List Bytes → Bytes
whole [] = []
whole (c ∷ cs) = c ++ whole cs

-- no part of a path, no control character, a wheel
abbrev pub IsSafeName : Text → Type 0
IsSafeName nom = (is_bare nom ≡ true) × (any is_control nom ≡ false) × (is_wheel_name nom ≡ true)

receive-whole :
    (max_bytes : ℕ) (chunks : List Bytes) (got r : Bytes)
    → length got ≤ max_bytes
    → receive max_bytes chunks got ≡ some r
    → (r ≡ got ++ whole chunks) × (length r ≤ max_bytes)
unfolding receive
receive-whole max_bytes [] got r h e =
    let same : got ≡ r = cc in (sym same ∙ sym (append-nil got), rw same at h)
receive-whole max_bytes (c ∷ cs) got r h e = elim (Bool-cases (ltb max_bytes (length (got ++ c)))) [
  | inl long ↦ absurd (let g : none ≡ some r = rw long at e in cc)
  | inr fits ↦
      let later = receive-whole max_bytes cs (got ++ c) r (ground (arith, fits)) (rw fits at e) in
      (later.0 ∙ append_assoc got c (whole cs), later.1)
]

inr-inj : {a b : Text} → Path (Refusal ⊎ Text) (inr a) (inr b) → a ≡ b
inr-inj h = cc

check_name-IsSafeName : (filename nom : Text) → check_name filename ≡ inr nom → IsSafeName nom
check_name-IsSafeName [] nom e = absurd (cc)
check_name-IsSafeName (c ∷ t) nom e = elim (Bool-cases (is_bare (c ∷ t))) [
  | inr f ↦ absurd (let g : inl upload_rejected ≡ inr nom = rw f at e in cc)
  | inl bare ↦ elim (Bool-cases (any is_control (c ∷ t))) [
    | inl f ↦ absurd (let g : inl upload_rejected ≡ inr nom = rw (bare, f) at e in cc)
    | inr plain ↦ elim (Bool-cases (is_wheel_name (c ∷ t))) [
      | inr f ↦ absurd (let g : inl type_rejected ≡ inr nom = rw (bare, plain, f) at e in cc)
      | inl wheel ↦
          let same : c ∷ t ≡ nom = inr-inj (rw (bare, plain, wheel) at e) in
          subst IsSafeName same (bare, plain, wheel)
    ]
  ]
]

-- A deposit that is refused leaves the area as it was. One that is accepted comes first in the area, before
-- those of the others that the retention keeps, and has all the bytes that were sent, in the bound and not
-- none, with their digest, under a safe name.
abbrev pub IsStaged :
    (Bytes → Text)
    → ℕ
    → List Place
    → List Bytes
    → List Deposit
    → Refusal ⊎ Deposit
    → List Deposit
    → Type 0
IsStaged digest max_bytes used chunks area (inl e) after = after ≡ area
IsStaged digest max_bytes used chunks area (inr d) after =
    (after ≡ d ∷ prune_wheels 2 used area)
    × (d.contents ≡ whole chunks)
    × (length d.contents ≤ max_bytes)
    × (1 ≤ length d.contents)
    × (d.sha256 ≡ digest (whole chunks))
    × IsSafeName d.name

-- The area has no deposit of a later second.
abbrev pub IsNotLater : ℕ → List Deposit → Type 0
IsNotLater stamp area = All (λ e. leb (Deposit.stamp e) stamp ≡ true) area

-- The area has only deposits of earlier seconds.
abbrev pub IsEarlier : ℕ → List Deposit → Type 0
IsEarlier stamp area = All (λ e. ltb (Deposit.stamp e) stamp ≡ true) area

free-IsEarlier :
    (stamp : ℕ) (area : List Deposit)
    → any (λ d. d.stamp == stamp) area ≡ false
    → IsNotLater stamp area
    → IsEarlier stamp area
free-IsEarlier stamp [] h n = tt
free-IsEarlier stamp (e ∷ es) h n =
    (ground (arith, n.0), free-IsEarlier stamp es (ground arith) n.1)

insert-newest :
    (d : Deposit) (area : List Deposit) → IsEarlier d.stamp area → insert d area ≡ d ∷ area
unfolding insert
insert-newest d [] h = refl
insert-newest d (e ∷ area) h = rw h.0 refl

stage_bytes-IsStaged :
    (digest : Bytes → Text) (max_bytes stamp : ℕ) (used : List Place) (nom : Text)
    (chunks : List Bytes) (o : Option Bytes) (area : List Deposit)
    → IsSafeName nom
    → IsEarlier stamp area
    → receive max_bytes chunks [] ≡ o
    → IsStaged digest max_bytes used chunks area
        (stage_bytes digest stamp used nom o area).0
        (stage_bytes digest stamp used nom o area).1
unfolding prune_wheels
stage_bytes-IsStaged digest max_bytes stamp used nom chunks none area safe new e = refl
stage_bytes-IsStaged digest max_bytes stamp used nom chunks (some []) area safe new e = refl
stage_bytes-IsStaged digest max_bytes stamp used nom chunks (some (b ∷ got)) area safe new e =
    let all_of_it = receive-whole max_bytes chunks [] (b ∷ got) (omega arith) e in
    (
      ap (prune_wheels keep_wheels used)
          (insert-newest (deposit digest stamp nom (b ∷ got)) area new),
      all_of_it.0,
      all_of_it.1,
      omega arith,
      ap digest all_of_it.0,
      safe,
    )

stage_named-IsStaged :
    (digest : Bytes → Text) (max_bytes stamp : ℕ) (used : List Place) (chunks : List Bytes)
    (filename : Text) (r : Refusal ⊎ Text) (area : List Deposit)
    → IsNotLater stamp area
    → valide_nom_de_wheel filename ≡ r
    → IsStaged digest max_bytes used chunks area
        (stage_named digest max_bytes stamp used chunks r area).0
        (stage_named digest max_bytes stamp used chunks r area).1
unfolding valide_nom_de_wheel
stage_named-IsStaged digest max_bytes stamp used chunks filename (inl e) area new h = refl
stage_named-IsStaged digest max_bytes stamp used chunks filename (inr nom) area new h =
    elim (Bool-cases (any (λ d. d.stamp == stamp) area)) [
      | inl taken ↦ rw taken refl
      | inr free ↦ rw free (
          stage_bytes-IsStaged digest max_bytes stamp used nom chunks (receive max_bytes chunks [])
            area (check_name-IsSafeName (rstrip (lstrip filename)) nom h)
            (free-IsEarlier stamp area free new) refl)
    ]

-- Whatever name and bytes are sent, when the area has no deposit of a later second, the deposit leaves the area as
-- it was, or its wheel comes first in it, before those of the others that the retention keeps, and has all
-- the bytes that were sent, at least one and no more than the bound, their digest and a safe name.
pub stage_wheel-IsStaged :
    (digest : Bytes → Text) (max_bytes stamp : ℕ) (used : List Place) (filename : Text)
    (chunks : List Bytes) (area : List Deposit)
    → IsNotLater stamp area
    → IsStaged digest max_bytes used chunks area
        (stage_wheel digest max_bytes stamp used filename chunks area).0
        (stage_wheel digest max_bytes stamp used filename chunks area).1
unfolding stage_wheel
stage_wheel-IsStaged digest max_bytes stamp used filename chunks area new =
    stage_named-IsStaged digest max_bytes stamp used chunks filename (valide_nom_de_wheel filename)
      area new refl
