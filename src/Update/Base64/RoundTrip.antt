-- ===== src/Update/Base64/RoundTrip.antt =====
-- The base64 of src/forgemaster/channel_publish.py read by that of src/forgemaster/update_channel.py.
use Prim.Native.Nat.{◌/◌, ◌%◌}
use forgemaster.Prelude.{
  ℕ, ◌+◌, ◌*◌, ◌<◌, ◌≡◌, refl, false, some, List, [], ◌∷◌, map, arith, ◌==◌, All, ap,
}
use forgemaster.Prelude.Text.{Text}
use forgemaster.Update.Base64.{pad, symbol, standard, value, b64u, b64decode, b64u_text}

-- A number below 64 is the value of its symbol.
value-symbol : (n : ℕ) → n < 64 → value (standard (symbol n)) ≡ some n
unfolding value standard symbol
value-symbol n h = ground arith

symbol-pad : (n : ℕ) → n < 64 → (standard (symbol n) == pad) ≡ false
unfolding standard symbol
symbol-pad n h = ground arith

standard-pad : standard pad ≡ pad
unfolding standard
standard-pad = refl

-- The four numbers that three bytes are cut into are the three bytes put together.
cut_one : (a b : ℕ) → a < 256 → b < 256 → (a / 4) * 4 + ((a % 4) * 16 + b / 16) / 16 ≡ a
cut_one a b ha hb = omega arith

cut_two :
    (a b c : ℕ)
    → b < 256
    → c < 256
    → (((a % 4) * 16 + b / 16) % 16) * 16 + ((b % 16) * 4 + c / 64) / 4 ≡ b
cut_two a b c hb hc = omega arith

cut_three : (b c : ℕ) → c < 256 → (((b % 16) * 4 + c / 64) % 4) * 64 + c % 64 ≡ c
cut_three b c hc = omega arith

-- What is encoded is decoded.
pub b64u_text-b64u :
    (bytes : List ℕ) → All (λ b. b < 256) bytes → b64u_text (b64u bytes) ≡ some bytes
unfolding b64u_text b64u b64decode
b64u_text-b64u [] h = refl
b64u_text-b64u (a ∷ []) h =
    let whole : (a / 4) * 4 + ((a % 4) * 16) / 16 ≡ a = omega (arith, h.0) in
    rw
      (
        standard-pad,
        value-symbol (a / 4) (omega (arith, h.0)),
        value-symbol ((a % 4) * 16) (omega arith),
        whole,
      )
      refl
b64u_text-b64u (a ∷ b ∷ []) h =
    let rest : (((a % 4) * 16 + b / 16) % 16) * 16 + ((b % 16) * 4) / 4 ≡ b =
      omega (arith, h.1.0) in
    rw
      (
        symbol-pad ((b % 16) * 4) (omega arith),
        standard-pad,
        value-symbol (a / 4) (omega (arith, h.0)),
        value-symbol ((a % 4) * 16 + b / 16) (omega (arith, h.1.0)),
        value-symbol ((b % 16) * 4) (omega arith),
        cut_one a b h.0 h.1.0,
        rest,
      )
      refl
b64u_text-b64u (a ∷ b ∷ c ∷ rest) h =
    rw
      (
        symbol-pad ((b % 16) * 4 + c / 64) (omega (arith, h.1.1.0)),
        symbol-pad (c % 64) (omega arith),
        value-symbol (a / 4) (omega (arith, h.0)),
        b64u_text-b64u rest h.1.1.1,
        value-symbol ((a % 4) * 16 + b / 16) (omega (arith, h.1.0)),
        value-symbol ((b % 16) * 4 + c / 64) (omega (arith, h.1.1.0)),
        value-symbol (c % 64) (omega arith),
        cut_one a b h.0 h.1.0,
        cut_two a b c h.1.0 h.1.1.0,
        cut_three b c h.1.1.0,
      )
      refl

standard_idem : (c : ℕ) → standard (standard c) ≡ standard c
unfolding standard
standard_idem c = ground arith

map-standard_idem : (s : Text) → map standard (map standard s) ≡ map standard s
map-standard_idem [] = refl
map-standard_idem (c ∷ s) = cc (standard_idem c, map-standard_idem s)

-- A text of the URL-safe alphabet and the text of the standard one that it stands for are decoded alike.
pub b64u_text-standard : (s : Text) → b64u_text (map standard s) ≡ b64u_text s
unfolding b64u_text
b64u_text-standard s = ap b64decode (map-standard_idem s)
