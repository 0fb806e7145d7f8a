-- ===== src/Update/Base64.antt =====
-- `b64u_decode` of src/forgemaster/update_channel.py and `b64u` of channel_publish.py, with the base64 of
-- the standard library that they call: the alphabet, groups of four symbols, the padding required.
pub mod RoundTrip
use Prim.Native.Nat.{◌/◌, ◌%◌}
use forgemaster.Prelude.{
  ℕ, ◌+◌, ◌-◌, ◌*◌, Bool, true, false, ◌&&◌, Option, none, some, List, [], ◌∷◌, map, ◌==◌, ltb, leb,
  if◌then◌else◌,
}
use forgemaster.Prelude.Text.{Text}

-- `=`
abbrev pub pad : ℕ
pad = 61

-- the URL-safe symbol of a number below 64
unfoldable pub symbol : ℕ → ℕ
symbol n =
    if ltb n 26
    then 65 + n
    else if ltb n 52
    then 71 + n
    else if ltb n 62
    then n - 4
    else if n == 62
    then 45
    else 95

-- `_B64URL`: `-` to `+`, `_` to `/`
unfoldable pub standard : ℕ → ℕ
standard c = if c == 45 then 43 else if c == 95 then 47 else c

-- the number of a symbol of the standard alphabet
unfoldable pub value : ℕ → Option ℕ
value c =
    if leb 65 c && leb c 90
    then some (c - 65)
    else if leb 97 c && leb c 122
    then some (c - 71)
    else if leb 48 c && leb c 57
    then some (c + 4)
    else if c == 43
    then some 62
    else if c == 47
    then some 63
    else none

-- `base64.urlsafe_b64encode`
unfoldable pub b64u : List ℕ → Text
b64u [] = []
b64u (a ∷ []) = symbol (a / 4) ∷ symbol ((a % 4) * 16) ∷ pad ∷ pad ∷ []
b64u (a ∷ b ∷ []) =
    symbol (a / 4) ∷ symbol ((a % 4) * 16 + b / 16) ∷ symbol ((b % 16) * 4) ∷ pad ∷ []
b64u (a ∷ b ∷ c ∷ rest) =
    symbol (a / 4)
    ∷ symbol ((a % 4) * 16 + b / 16)
    ∷ symbol ((b % 16) * 4 + c / 64)
    ∷ symbol (c % 64)
    ∷ b64u rest

abbrev pub one_byte : Option ℕ → Option ℕ → Option (List ℕ)
one_byte (some x) (some y) = some ((x * 4 + y / 16) ∷ [])
one_byte _ _ = none

abbrev pub two_bytes : Option ℕ → Option ℕ → Option ℕ → Option (List ℕ)
two_bytes (some x) (some y) (some z) = some ((x * 4 + y / 16) ∷ ((y % 16) * 16 + z / 4) ∷ [])
two_bytes _ _ _ = none

abbrev pub three_bytes :
    Option ℕ → Option ℕ → Option ℕ → Option ℕ → Option (List ℕ) → Option (List ℕ)
three_bytes (some x) (some y) (some z) (some w) (some rest) =
    some ((x * 4 + y / 16) ∷ ((y % 16) * 16 + z / 4) ∷ ((z % 4) * 64 + w) ∷ rest)
three_bytes _ _ _ _ _ = none

-- A group that is padded is the last one.
abbrev pub last_group : List ℕ → Option (List ℕ) → Option (List ℕ)
last_group [] bytes = bytes
last_group (_ ∷ _) bytes = none

-- `base64.b64decode(s, validate=True)`
unfoldable pub b64decode : Text → Option (List ℕ)
b64decode (a ∷ b ∷ c ∷ d ∷ rest) =
    let more = b64decode rest in
    if c == pad && d == pad
    then last_group rest (one_byte (value a) (value b))
    else if d == pad
    then last_group rest (two_bytes (value a) (value b) (value c))
    else three_bytes (value a) (value b) (value c) (value d) more
b64decode [] = some []
b64decode _ = none

-- the text of a field, decoded
unfoldable pub b64u_text : Text → Option (List ℕ)
b64u_text s = b64decode (map standard s)
