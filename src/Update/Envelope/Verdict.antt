-- ===== src/Update/Envelope/Verdict.antt =====
-- What `verify_envelope` of src/forgemaster/update_channel.py answers, read off the signatures.
use forgemaster.Prelude.{
  ◌≡◌, ◌≢◌, ◌⊎◌, ◌∙◌, ap, Option-cases, refl, Bool, true, false, ◌||◌, List, [], ◌∷◌, ◌++◌, any,
  all, arith, Bool-cases, inl, inr, if◌then◌else◌, sym,
}
use forgemaster.Update.{
  Bytes, Json, str, arr, obj, null, bool, num, Checked, valid, refused, Crypto, unknown_key,
  bad_signature, valid-inj,
}
use forgemaster.Update.TrustRoot.{Key}
use forgemaster.Update.Envelope.{
  Signature, Envelope, Looked, unhashable, missing, found, look_up, is_text, no_signature,
  try_signature, try_all, verify_envelope, signing_message, known,
}

-- The signature names a key of the set and verifies under it.
abbrev pub accepted_by : Crypto → Bytes → Signature → Looked → Bool
accepted_by c payload s (found p) = c.verify p s.sig (signing_message payload)
accepted_by c payload s _ = false

unfoldable pub accepts : Crypto → List Key → Bytes → Signature → Bool
accepts c keys payload s = accepted_by c payload s (look_up keys s.key_id)

abbrev pub is_found : Looked → Bool
is_found (found p) = true
is_found _ = false

unfoldable pub names_known : List Key → Signature → Bool
names_known keys s = is_found (look_up keys s.key_id)

-- every signature's identifier is a text, as the publisher's are
abbrev pub HasTextIds : List Signature → Type 0
HasTextIds ss = all (λ s. is_text s.key_id) ss ≡ true

-- A value comes from a signature that is accepted, or from one of the two ways on.
try_signature_sound :
    (c : Crypto) (payload : Bytes) (s : Signature) (l : Looked) (u f : Checked Bytes) (p : Bytes)
    → try_signature c payload s l u f ≡ valid p
    → ((accepted_by c payload s l ≡ true) × (p ≡ payload)) ⊎ ((u ≡ valid p) ⊎ (f ≡ valid p))
try_signature_sound c payload s unhashable u f p h = absurd (cc)
try_signature_sound c payload s missing u f p h = inr (inl h)
try_signature_sound c payload s (found k) u f p h =
    elim (Bool-cases (c.verify k s.sig (signing_message payload))) [
      | inl e ↦ inl (e, sym (valid-inj (rw e at h)))
      | inr e ↦ inr (inr (rw e at h))
    ]

no_signature_refuses :
    (u f : List Json) (p : Bytes) → no_signature u f ≡ valid p → Unit {0} → true ≡ false
no_signature_refuses u [] p h _ = absurd (cc)
no_signature_refuses u (x ∷ f) p h _ = absurd (cc)

try_all_sound :
    (c : Crypto) (keys : List Key) (payload : Bytes) (ss : List Signature) (u f : List Json)
    (p : Bytes)
    → try_all c keys payload ss u f ≡ valid p
    → (any (accepts c keys payload) ss ≡ true) × (p ≡ payload)
unfolding try_all accepts
try_all_sound c keys payload [] u f p h = absurd (let g = no_signature_refuses u f p h tt in cc)
try_all_sound c keys payload (s ∷ ss) u f p h =
    elim (try_signature_sound c payload s (look_up keys s.key_id) _ _ p h) [
      | inl a ↦ rw a.0 (refl, a.1)
      | inr (inl g) ↦
          let later = try_all_sound c keys payload ss (u ++ s.key_id ∷ []) f p g in
          ground (arith, later)
      | inr (inr g) ↦
          let later = try_all_sound c keys payload ss u (f ++ s.key_id ∷ []) p g in
          ground (arith, later)
    ]

-- A payload is given only if it is the envelope's and a signature that names a known key verifies
-- under that key.
pub verify_envelope_sound :
    (c : Crypto) (e : Envelope) (keys : List Key) (p : Bytes)
    → verify_envelope c e keys ≡ valid p
    → (any (accepts c keys e.payload) e.signatures ≡ true) × (p ≡ e.payload)
unfolding verify_envelope
verify_envelope_sound c e [] p h = absurd (cc)
verify_envelope_sound c e (k ∷ ks) p h = try_all_sound c (k ∷ ks) e.payload e.signatures [] [] p h

-- The key of a text is found or missing.
text_id-hashable : (keys : List Key) (j : Json) → is_text j ≡ true → look_up keys j ≢ unhashable
text_id-hashable keys (str t) h e = elim (Option-cases (known t keys)) [
  | inl n ↦ absurd (let g : missing ≡ unhashable = rw n at e in cc)
  | inr (p, n) ↦ absurd (let g : found p ≡ unhashable = rw n at e in cc)
]
text_id-hashable keys null h e = absurd (cc)
text_id-hashable keys (bool b) h e = absurd (cc)
text_id-hashable keys (num n) h e = absurd (cc)
text_id-hashable keys (arr x) h e = absurd (cc)
text_id-hashable keys (obj x) h e = absurd (cc)

-- What the signatures say together.
abbrev pub verdict_of : Crypto → List Key → Bytes → List Signature → Bool → Checked Bytes
verdict_of c keys payload ss failed_before =
    if any (accepts c keys payload) ss
    then valid payload
    else if failed_before || any (names_known keys) ss
    then refused bad_signature
    else refused unknown_key

abbrev pub is_nonempty : List Json → Bool
is_nonempty [] = false
is_nonempty (_ ∷ _) = true

no_signature_lem :
    (u f : List Json)
    → all is_text u ≡ true
    → no_signature u f ≡ (if is_nonempty f then refused bad_signature else refused unknown_key)
no_signature_lem u [] h = rw h refl
no_signature_lem u (x ∷ f) h = refl

or_true : (b : Bool) → (b || true) ≡ true
or_true true = refl
or_true false = refl

is_nonempty-snoc : (f : List Json) (j : Json) → is_nonempty (f ++ j ∷ []) ≡ true
is_nonempty-snoc [] j = refl
is_nonempty-snoc (x ∷ f) j = refl

all-snoc :
    (u : List Json) (j : Json)
    → all is_text u ≡ true
    → is_text j ≡ true
    → all is_text (u ++ j ∷ []) ≡ true
all-snoc [] j h k = rw k refl
all-snoc (x ∷ u) j h k = ground (arith, all-snoc u j)

try_signature_lem :
    (c : Crypto) (keys : List Key) (payload : Bytes) (s : Signature) (ss : List Signature)
    (l : Looked) (b : Bool) (on_unknown on_failure : Checked Bytes)
    → l ≢ unhashable
    → look_up keys s.key_id ≡ l
    → on_unknown ≡ verdict_of c keys payload ss b
    → on_failure ≡ verdict_of c keys payload ss true
    → try_signature c payload s l on_unknown on_failure ≡ verdict_of c keys payload (s ∷ ss) b
unfolding accepts names_known
try_signature_lem c keys payload s ss unhashable b u f h e hu hf = absurd (h refl)
try_signature_lem c keys payload s ss missing b u f h e hu hf = rw e hu
try_signature_lem c keys payload s ss (found p) b u f h e hu hf =
    elim (Bool-cases (c.verify p s.sig (signing_message payload))) [
      | inl v ↦ rw (e, v) refl
      | inr v ↦ rw (e, v, or_true b) hf
    ]

try_all_lem :
    (c : Crypto) (keys : List Key) (payload : Bytes) (ss : List Signature) (u f : List Json)
    → HasTextIds ss
    → all is_text u ≡ true
    → try_all c keys payload ss u f ≡ verdict_of c keys payload ss (is_nonempty f)
unfolding try_all
try_all_lem c keys payload [] u [] h hu = no_signature_lem u [] hu
try_all_lem c keys payload [] u (x ∷ f) h hu = refl
try_all_lem c keys payload (s ∷ ss) u f h hu =
    let here : is_text s.key_id ≡ true = ground (arith, h) in
    let rest : HasTextIds ss = ground (arith, h) in
    let on_failure : try_all c keys payload ss u (f ++ s.key_id ∷ [])
        ≡ verdict_of c keys payload ss true =
      try_all_lem c keys payload ss u (f ++ s.key_id ∷ []) rest hu
      ∙ ap (verdict_of c keys payload ss) (is_nonempty-snoc f s.key_id) in
    try_signature_lem c keys payload s ss (look_up keys s.key_id) (is_nonempty f) _ _
      (text_id-hashable keys s.key_id here) refl
      (try_all_lem c keys payload ss (u ++ s.key_id ∷ []) f rest (all-snoc u s.key_id hu here))
      on_failure

-- With a trust root that is not empty and identifiers that are texts: the payload when a signature
-- verifies under the key it names, else a bad signature when one names a known key, else an unknown key.
pub verify_envelope_lem :
    (c : Crypto) (e : Envelope) (k : Key) (ks : List Key)
    → HasTextIds e.signatures
    → verify_envelope c e (k ∷ ks) ≡ (
        if any (accepts c (k ∷ ks) e.payload) e.signatures
        then valid e.payload
        else if any (names_known (k ∷ ks)) e.signatures
        then refused bad_signature
        else refused unknown_key)
unfolding verify_envelope
verify_envelope_lem c e k ks h = try_all_lem c (k ∷ ks) e.payload e.signatures [] [] h refl
