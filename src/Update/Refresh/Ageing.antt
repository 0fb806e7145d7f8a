-- ===== src/Update/Refresh/Ageing.antt =====
-- `refresh`, `fetch` and `verdict` of src/forgemaster/update_channel.py: what is asked, kept and said.
use forgemaster.Prelude.{
  ℕ, suc, zero, ◌≤◌, ◌≡◌, refl, String, true, Option, none, some, List, [], ◌∷◌, any, arith, length,
  take, Bool-cases, inl, inr, ◌⊎◌, ◌↔◌, sym, ◌||◌, str_eq, ltb, ap,
}
use forgemaster.Update.{
  Crypto, JsonCodec, Bytes, malformed, Checked, valid, refused, valid-inj, >>=-valid,
}
use forgemaster.Update.TrustRoot.{
  Key, RootRead, read, decode_error, trust_root, KeysFile, absent, os_error, not_utf8, contents,
}
use forgemaster.Update.Envelope.{Envelope, parse_envelope, verify_envelope}
use forgemaster.Update.Envelope.Verdict.{accepts, verify_envelope_sound}
use forgemaster.Update.Announce.{Announce, parse_announce}
use forgemaster.Update.Refresh.{
  Response, body, http_error, url_error, fetch, receive, read_body, ChannelState, StateFile,
  read_state, Environment, read_announce, outcome, refresh_with, refresh,
}

take-whole : (n : ℕ) (xs : Bytes) → length (take (suc n) xs) ≤ n → take (suc n) xs ≡ xs
take-whole n [] h = refl
take-whole zero (x ∷ xs) h = absurd (omega (arith, h))
take-whole (suc n) (x ∷ xs) h = ap (λ t. x ∷ t) (take-whole n xs (omega (arith, h)))

read_body-whole :
    (n : ℕ) (served b : Bytes) → read_body n served ≡ valid b → (served ≡ b) × (length b ≤ n)
read_body-whole n served b h = elim (Bool-cases (ltb n (length (take (suc n) served)))) [
  | inl e ↦ absurd (let g : refused malformed ≡ valid b = rw e at h in cc)
  | inr e ↦
      let same : take (suc n) served ≡ b = valid-inj (rw e at h) in
      let short : length (take (suc n) served) ≤ n = ground (arith, e) in
      let whole = take-whole n served short in (cc, rw same at short)
]

receive-whole :
    (n : ℕ) (r : Response) (b : Bytes) → receive n r ≡ valid b → (r ≡ body b) × (length b ≤ n)
receive-whole n http_error b h = absurd (cc)
receive-whole n url_error b h = absurd (cc)
receive-whole n (body served) b h = let w = read_body-whole n served b h in (ap body w.0, w.1)

-- What `fetch` gives is the whole body that was served, within the bound, to an http or https URL.
pub fetch-whole :
    (scheme_of : String → String) (serve : String → Response) (n : ℕ) (url : String) (b : Bytes)
    → fetch scheme_of serve n url ≡ valid b
    → (serve url ≡ body b)
      × (length b ≤ n)
      × ((str_eq (scheme_of url) "http" || str_eq (scheme_of url) "https") ≡ true)
unfolding fetch
fetch-whole scheme_of serve n url b h =
    elim (Bool-cases (str_eq (scheme_of url) "http" || str_eq (scheme_of url) "https")) [
      | inl e ↦ let w = receive-whole n (serve url) b (rw e at h) in (w.0, w.1, e)
      | inr e ↦ absurd (let g : refused malformed ≡ valid b = rw e at h in cc)
    ]

-- What stands behind an announce that a refresh takes up.
pub record IsAuthentic (env : Environment) (a : Announce) : Type 0 where
  pub keys : List Key
  pub raw : Bytes
  pub envelope : Envelope
  pub is_root : trust_root env.json env.crypto env.keys_file ≡ read (valid keys)
  pub is_fetched : env.fetcher env.url ≡ valid raw
  pub is_parsed : parse_envelope env.json raw ≡ valid envelope
  pub is_signed : any (accepts env.crypto keys envelope.payload) envelope.signatures ≡ true
  pub is_announced : parse_announce env.json envelope.payload ≡ valid a

read_announce-IsAuthentic :
    (env : Environment) (keys : List Key) (a : Announce)
    → trust_root env.json env.crypto env.keys_file ≡ read (valid keys)
    → read_announce env keys ≡ valid a
    → IsAuthentic env a
unfolding read_announce
read_announce-IsAuthentic env keys a root h =
    let got = >>=-valid (env.fetcher env.url) _ h in
    let parsed = >>=-valid (parse_envelope env.json got.0) _ got.2 in
    let checked = >>=-valid (verify_envelope env.crypto parsed.0 keys) _ parsed.2 in
    let sound = verify_envelope_sound env.crypto parsed.0 keys checked.0 checked.1 in
    record {
      keys = keys;
      raw = got.0;
      envelope = parsed.0;
      is_root = root;
      is_fetched = got.1;
      is_parsed = parsed.1;
      is_signed = sound.0;
      is_announced = rw sound.1 at checked.2;
    }

-- The success is the one known before, or an authentic announce of now.
abbrev pub IsAged : Environment → Option (ℕ × Announce) → ChannelState → Type 0
IsAged env before s =
    (s.last_success ≡ before)
    ⊎ ((a : Announce) × IsAuthentic env a × (s.last_success ≡ some (env.now, a)))

outcome-IsAged :
    (env : Environment) (before : Option (ℕ × Announce)) (keys : List Key) (m : Checked Announce)
    → trust_root env.json env.crypto env.keys_file ≡ read (valid keys)
    → read_announce env keys ≡ m
    → IsAged env before (outcome env.now before m)
outcome-IsAged env before keys (valid a) root h =
    inr (a, read_announce-IsAuthentic env keys a root h, refl)
outcome-IsAged env before keys (refused e) root h = inl refl

some-inj {ℓ} : {A : Type ℓ} {a b : A} → some a ≡ some b → a ≡ b
some-inj h = cc

refresh_with-IsAged :
    (env : Environment) (file : Option StateFile) (r : RootRead) (s : ChannelState)
    → trust_root env.json env.crypto env.keys_file ≡ r
    → (refresh_with env file r).result ≡ some s
    → IsAged env (read_state file).last_success s
refresh_with-IsAged env file decode_error s root h = absurd (cc)
refresh_with-IsAged env file (read (refused e)) s root h = rw (sym (some-inj h)) (inl refl)
refresh_with-IsAged env file (read (valid [])) s root h = rw (sym (some-inj h)) (inl refl)
refresh_with-IsAged env file (read (valid (k ∷ ks))) s root h = rw (sym (some-inj h)) (
    outcome-IsAged env (read_state file).last_success (k ∷ ks) (read_announce env (k ∷ ks)) root
      refl)

-- The success that a refresh returns is the one that the state file held, whatever failed, or an
-- announce whose envelope carries a signature that verifies under the key of the trust root it names.
pub refresh-IsAged :
    (env : Environment) (file : Option StateFile) (s : ChannelState)
    → (refresh env file).result ≡ some s
    → IsAged env (read_state file).last_success s
unfolding refresh
refresh-IsAged env file s h =
    refresh_with-IsAged env file (trust_root env.json env.crypto env.keys_file) s refl h

-- no request without a key to verify the answer
abbrev pub HasKey : RootRead → Type 0
HasKey r = (k : Key) × (ks : List Key) × (r ≡ read (valid (k ∷ ks)))

refresh_with_asked :
    (env : Environment) (file : Option StateFile) (r : RootRead)
    → ((refresh_with env file r).asked ≡ []) ⊎ HasKey r
refresh_with_asked env file decode_error = inl refl
refresh_with_asked env file (read (refused e)) = inl refl
refresh_with_asked env file (read (valid [])) = inl refl
refresh_with_asked env file (read (valid (k ∷ ks))) = inr (k, ks, refl)

-- A refresh asks the fetcher for nothing, or its trust root has a key.
pub refresh_asked :
    (env : Environment) (file : Option StateFile)
    → ((refresh env file).asked ≡ []) ⊎ HasKey (trust_root env.json env.crypto env.keys_file)
unfolding refresh
refresh_asked env file = refresh_with_asked env file (trust_root env.json env.crypto env.keys_file)

refresh_with_raises :
    (env : Environment) (file : Option StateFile) (r : RootRead)
    → ((refresh_with env file r).result ≡ none) ↔ (r ≡ decode_error)
refresh_with_raises env file decode_error = (λ h. refl, λ h. refl)
refresh_with_raises env file (read (refused e)) = (λ h. absurd (cc), λ h. absurd (cc))
refresh_with_raises env file (read (valid [])) = (λ h. absurd (cc), λ h. absurd (cc))
refresh_with_raises env file (read (valid (k ∷ ks))) = (λ h. absurd (cc), λ h. absurd (cc))

trust_root_raises :
    (j : JsonCodec) (c : Crypto) (f : KeysFile) → (trust_root j c f ≡ decode_error) ↔ (f ≡ not_utf8)
unfolding trust_root
trust_root_raises j c absent = (λ h. absurd (cc), λ h. absurd (cc))
trust_root_raises j c os_error = (λ h. absurd (cc), λ h. absurd (cc))
trust_root_raises j c not_utf8 = (λ h. refl, λ h. refl)
trust_root_raises j c (contents raw) = (λ h. absurd (cc), λ h. absurd (cc))

-- A refresh raises exactly when the keys file is there and is not UTF-8.
pub refresh_raises :
    (env : Environment) (file : Option StateFile)
    → ((refresh env file).result ≡ none) ↔ (env.keys_file ≡ not_utf8)
unfolding refresh
refresh_raises env file =
    let root = trust_root env.json env.crypto env.keys_file in
    let here = refresh_with_raises env file root in
    let there = trust_root_raises env.json env.crypto env.keys_file in
    (λ h. there.0 (here.0 h), λ h. here.1 (there.1 h))
