-- ===== src/Update/Publish/RoundTrip.antt =====
-- The envelope and the trust root of src/forgemaster/channel_publish.py read by
-- src/forgemaster/update_channel.py.
use forgemaster.Prelude.{
  ◌≡◌, refl, true, Option, none, some, [], ◌∷◌, ◌==◌, length, Bool-cases, inl, inr, sym, ap, ◌∙◌,
}
use forgemaster.Prelude.Text.{text_eq_refl}
use forgemaster.Update.{Bytes, IsBytes, Json, str, valid, Crypto, JsonCodec, lookup}
use forgemaster.Update.Base64.{b64u}
use forgemaster.Update.Base64.RoundTrip.{b64u_text-b64u}
use forgemaster.Update.TrustRoot.{
  key_id, b64u_decode, contents, read, trust_root, add_key, add_keys,
}
use forgemaster.Update.Envelope.{
  Envelope, parse_envelope, parse_signatures, verify_envelope, signing_message, known, try_all,
}
use forgemaster.Update.Announce.{parse_announce}
use forgemaster.Update.Refresh.{Environment, StateFile, read_state, outcome, read_announce, refresh}
use forgemaster.Update.Publish.{sign_envelope, trust_root_document, envelope_object}

b64u_decode-b64u : (bytes : Bytes) → IsBytes bytes → b64u_decode (str (b64u bytes)) ≡ valid bytes
unfolding b64u_decode
b64u_decode-b64u bytes h = rw (b64u_text-b64u bytes h) refl

-- A key published is the one key of the trust root.
pub trust_root-document :
    (j : JsonCodec) (c : Crypto) (p : Bytes)
    → IsBytes p
    → j.loads (j.dumps (trust_root_document c p)) ≡ some (trust_root_document c p)
    → trust_root j c (contents (j.dumps (trust_root_document c p)))
      ≡ read (valid (record { key_id = key_id c p; public = p } ∷ []))
unfolding trust_root trust_root_document lookup add_keys add_key
trust_root-document j c p h l = rw (l, b64u_decode-b64u p h, text_eq_refl (key_id c p)) refl

-- Ed25519, as documented: keys and signatures are bytes, and a public key verifies what its private
-- key signed.
pub record IsSound (c : Crypto) : Type 0 where
  pub public_bytes : (k : Bytes) → IsBytes (c.public_of k)
  pub sign_bytes : (k m : Bytes) → IsBytes (c.sign k m)
  pub verifies : (k m : Bytes) → c.verify (c.public_of k) (c.sign k m) m ≡ true

-- the envelope that a signed document is
abbrev signed : Crypto → Bytes → Bytes → Envelope
signed c payload k = record {
  payload = payload;
  signatures =
      record { key_id = str (key_id c (c.public_of k)); sig = c.sign k (signing_message payload) }
      ∷ [];
}

some-inj {ℓ} : {A : Type ℓ} {a b : A} → some a ≡ some b → a ≡ b
some-inj h = cc

parse_envelope-sign_envelope :
    (j : JsonCodec) (c : Crypto) (payload k : Bytes) (d : Json)
    → IsSound c
    → IsBytes payload
    → sign_envelope c payload k ≡ some d
    → j.loads (j.dumps d) ≡ some d
    → parse_envelope j (j.dumps d) ≡ valid (signed c payload k)
unfolding parse_envelope sign_envelope lookup parse_signatures
parse_envelope-sign_envelope j c payload k d sound h e l = elim (Bool-cases (length k == 32)) [
  | inr f ↦ absurd (let g : none ≡ some d = rw f at e in cc)
  | inl t ↦
      let message = signing_message payload in
      let same : some
            (envelope_object (b64u payload) (key_id c (c.public_of k)) (b64u (c.sign k message)))
          ≡ some d =
        rw t at e in
      rw
        (
          l,
          sym (some-inj same),
          b64u_decode-b64u payload h,
          b64u_decode-b64u (c.sign k message) (sound.sign_bytes k message),
        )
        refl
]

verify_envelope-signed :
    (c : Crypto) (payload k : Bytes)
    → IsSound c
    → verify_envelope c
        (signed c payload k)
        (record { key_id = key_id c (c.public_of k); public = c.public_of k } ∷ [])
      ≡ valid payload
unfolding verify_envelope try_all known
verify_envelope-signed c payload k sound =
    rw (text_eq_refl (key_id c (c.public_of k)), sound.verifies k (signing_message payload)) refl

read_announce-signed :
    (env : Environment) (payload k : Bytes) (d : Json)
    → IsSound env.crypto
    → IsBytes payload
    → sign_envelope env.crypto payload k ≡ some d
    → env.json.loads (env.json.dumps d) ≡ some d
    → env.fetcher env.url ≡ valid (env.json.dumps d)
    → read_announce env (
        record {
          key_id = key_id env.crypto (env.crypto.public_of k);
          public = env.crypto.public_of k;
        }
        ∷ [])
      ≡ parse_announce env.json payload
unfolding read_announce
read_announce-signed env payload k d sound h e l f = simp (
  f,
  parse_envelope-sign_envelope env.json env.crypto payload k d sound h e l,
  verify_envelope-signed env.crypto payload k sound,
)

-- An instance whose trust root is the document of the publisher's public key and which is served what
-- the publisher signed takes up the announce that the payload is, or refuses it by its shape alone.
pub refresh-sign_envelope :
    (env : Environment) (file : Option StateFile) (payload k : Bytes) (d : Json)
    → IsSound env.crypto
    → IsBytes payload
    → sign_envelope env.crypto payload k ≡ some d
    → env.json.loads (env.json.dumps d) ≡ some d
    → env.fetcher env.url ≡ valid (env.json.dumps d)
    → env.keys_file
      ≡ contents (env.json.dumps (trust_root_document env.crypto (env.crypto.public_of k)))
    → env.json.loads (env.json.dumps (trust_root_document env.crypto (env.crypto.public_of k)))
      ≡ some (trust_root_document env.crypto (env.crypto.public_of k))
    → (refresh env file).result
      ≡ some (outcome env.now (read_state file).last_success (parse_announce env.json payload))
unfolding refresh
refresh-sign_envelope env file payload k d sound h e l f kf kl =
    let root : trust_root env.json env.crypto env.keys_file ≡ _ =
      ap (trust_root env.json env.crypto) kf
      ∙ trust_root-document env.json env.crypto (env.crypto.public_of k) (sound.public_bytes k)
          kl in
    simp (root, read_announce-signed env payload k d sound h e l f)
