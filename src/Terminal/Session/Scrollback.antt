-- ===== src/Terminal/Session/Scrollback.antt =====
-- `_on_readable` and `read_from` of src/forgemaster/terminal/registry.py over any output.
use forgemaster.Prelude.{
  ℕ, zero, suc, ◌+◌, ◌-◌, ◌≤◌, ◌≡◌, refl, List, [], ◌∷◌, ◌++◌, arith, length, drop, length-append,
  length-drop, if◌then◌else◌, ltb, ap, sym, ◌∙◌,
}
use forgemaster.Terminal.Session.{
  PtySession, new_session, keep_tail, on_readable, window_start, read_from,
}

-- The reads of a session, one after another.
unfoldable pub feed : ℕ → List (List ℕ) → PtySession → PtySession
feed cap [] s = s
feed cap (bytes ∷ rest) s = feed cap rest (on_readable cap bytes s)

abbrev pub output : List (List ℕ) → List ℕ
output [] = []
output (bytes ∷ rest) = bytes ++ output rest

drop-append : (n : ℕ) (xs ys : List ℕ) → n ≤ length xs → drop n (xs ++ ys) ≡ drop n xs ++ ys
drop-append zero xs ys h = refl
drop-append (suc n) [] ys h = absurd (omega (arith, h))
drop-append (suc n) (x ∷ xs) ys h = drop-append n xs ys (omega (arith, h))

drop_nil : (n : ℕ) → drop {A = ℕ} n [] ≡ []
drop_nil zero = refl
drop_nil (suc n) = refl

drop-drop : (m n : ℕ) (xs : List ℕ) → drop m (drop n xs) ≡ drop (n + m) xs
drop-drop m zero xs = ap (λ k. drop k xs) (omega arith)
drop-drop m (suc n) [] = drop_nil m ∙ sym (drop_nil (suc n + m))
drop-drop m (suc n) (x ∷ xs) =
    let later : suc (n + m) ≡ suc n + m = omega arith in
    drop-drop m n xs ∙ ap (λ k. drop k (x ∷ xs)) later

-- To keep the tail of a tail and more bytes is to keep the tail of all of it.
keep_tail_snoc :
    (cap : ℕ) (seen bytes : List ℕ)
    → keep_tail cap (keep_tail cap seen ++ bytes) ≡ keep_tail cap (seen ++ bytes)
keep_tail_snoc cap seen bytes =
    let n = length seen - cap in
    let shorter : length (drop n seen ++ bytes) ≡ (length seen - n) + length bytes =
      omega (arith, length-append (drop n seen) bytes, length-drop n seen) in
    let joined : drop n (seen ++ bytes) ≡ drop n seen ++ bytes =
      drop-append n seen bytes (omega arith) in
    let m = length (drop n seen ++ bytes) - cap in
    ap (λ t. drop m t) (sym joined)
    ∙ drop-drop m n (seen ++ bytes)
    ∙ ap (λ k. drop k (seen ++ bytes)) (omega (arith, shorter, length-append seen bytes))

-- What holds of a session that was fed nothing or more.
abbrev Reads : ℕ → List ℕ → PtySession → Type 0
Reads cap seen s = (s.scrollback ≡ keep_tail cap seen) × (s.total ≡ length seen)

append_assoc : (xs ys zs : List ℕ) → (xs ++ ys) ++ zs ≡ xs ++ (ys ++ zs)
append_assoc [] ys zs = refl
append_assoc (x ∷ xs) ys zs = ap (λ t. x ∷ t) (append_assoc xs ys zs)

append_nil : (xs : List ℕ) → xs ++ [] ≡ xs
append_nil [] = refl
append_nil (x ∷ xs) = ap (λ t. x ∷ t) (append_nil xs)

on_readable-Reads :
    (cap : ℕ) (seen bytes : List ℕ) (s : PtySession)
    → Reads cap seen s
    → Reads cap (seen ++ bytes) (on_readable cap bytes s)
unfolding on_readable
on_readable-Reads cap seen [] s (e, t) =
    (e ∙ ap (keep_tail cap) (sym (append_nil seen)), t ∙ ap length (sym (append_nil seen)))
on_readable-Reads cap seen (b ∷ bytes) s (e, t) = (
  ap (λ sb. keep_tail cap (sb ++ b ∷ bytes)) e ∙ keep_tail_snoc cap seen (b ∷ bytes),
  omega (arith, t, length-append seen (b ∷ bytes)),
)

feed-Reads :
    (cap : ℕ) (reads : List (List ℕ)) (seen : List ℕ) (s : PtySession)
    → Reads cap seen s
    → Reads cap (seen ++ output reads) (feed cap reads s)
unfolding feed
feed-Reads cap [] seen s (e, t) =
    (e ∙ ap (keep_tail cap) (sym (append_nil seen)), t ∙ ap length (sym (append_nil seen)))
feed-Reads cap (bytes ∷ rest) seen s h =
    let (e, t) =
      feed-Reads cap rest (seen ++ bytes) (on_readable cap bytes s)
        (on_readable-Reads cap seen bytes s h) in
    (
      e ∙ ap (keep_tail cap) (append_assoc seen bytes (output rest)),
      t ∙ ap length (append_assoc seen bytes (output rest)),
    )

-- A client at the cursor `cursor` of a new session that has read, attached or not, gets the output from
-- there on, or from the start of the last `cap` bytes when these begin later; and the cursor that it gets is
-- the length of the output.
pub feed-read_from :
    (cap : ℕ) (reads : List (List ℕ)) (serial cursor : ℕ)
    → ((read_from cursor (feed cap reads (new_session serial))).0
        ≡ drop
            (if ltb cursor (length (output reads) - cap)
              then length (output reads) - cap
              else cursor)
            (output reads))
      × ((read_from cursor (feed cap reads (new_session serial))).1 ≡ length (output reads))
unfolding read_from
feed-read_from cap reads serial cursor =
    let s = feed cap reads (new_session serial) in
    let (e, t) = feed-Reads cap reads [] (new_session serial) (sym (drop_nil (0 - cap)), refl) in
    let start : window_start s ≡ length (output reads) - cap =
      omega (arith, t, ap length e, length-drop (length (output reads) - cap) (output reads)) in
    let at =
      if ltb cursor (length (output reads) - cap) then length (output reads) - cap else cursor in
    (
      rw (start, e)
          (drop-drop (at - (length (output reads) - cap)) (length (output reads) - cap)
              (output reads)
            ∙ ap (λ k. drop k (output reads)) (ground arith)),
      t,
    )
