-- ===== src/Examples/Channel.antt =====
-- A publisher and an instance with a toy signature: the signature is the private key.
use Prim.Native.Nat.{◌%◌}
use forgemaster.Prelude.{
  ap, ◌≡◌, refl, true, Option, none, some, [], ◌∷◌, map, arith, if◌then◌else◌, any, ◌∙◌, ◌⊎◌,
}
use forgemaster.Prelude.Text.{text_eq, codes, text_eq_refl}
use forgemaster.Update.{
  null, Bytes, IsBytes, Json, str, arr, obj, no_items, item, no_members, member, lookup, valid,
  refused, Crypto, JsonCodec, unreachable, unknown_key, bad_signature,
}
use forgemaster.Update.Base64.{b64u, b64u_text, standard}
use forgemaster.Update.Base64.RoundTrip.{b64u_text-b64u, b64u_text-standard}
use forgemaster.Update.TrustRoot.{Key, key_id, contents, not_utf8, read, trust_root}
use forgemaster.Update.Envelope.{Envelope, verify_envelope}
use forgemaster.Update.Envelope.Verdict.{accepts, names_known, verify_envelope_lem}
use forgemaster.Update.Announce.{texts_of, Announce, parse_announce}
use forgemaster.Update.Refresh.{
  Environment, StateFile, ChannelState, read_announce, refresh, outcome, read_state, body, fetch,
  failed, verdict, read_verdict, ok,
}
use forgemaster.Update.Refresh.Ageing.{refresh-IsAged, IsAged, refresh_asked, HasKey}
use forgemaster.Update.Refresh.Persistence.{read_verdict-refresh}
use forgemaster.Update.Publish.{
  Wheel, sign_envelope, trust_root_document, announce_object, text_items,
}
use forgemaster.Update.Publish.RoundTrip.{IsSound, trust_root-document, refresh-sign_envelope}

abbrev clip : Bytes → Bytes
clip k = map (λ b. b % 256) k

clip-IsBytes : (k : Bytes) → IsBytes (clip k)
clip-IsBytes [] = tt
clip-IsBytes (b ∷ k) = (omega arith, clip-IsBytes k)

abbrev toy : Crypto
toy = record {
  sha256_hex = λ p. p;
  public_of = clip;
  sign = λ k m. clip k;
  verify = λ p s m. text_eq s p;
}

toy-IsSound : IsSound toy
toy-IsSound = record {
  public_bytes = clip-IsBytes;
  sign_bytes = λ k m. clip-IsBytes k;
  verifies = λ k m. text_eq_refl (clip k);
}

abbrev private_key : Bytes
private_key =
    7 ∷ 1 ∷ 2 ∷ 3 ∷ 4 ∷ 5 ∷ 6 ∷ 7 ∷ 8 ∷ 9 ∷ 10 ∷ 11 ∷ 12 ∷ 13 ∷ 14 ∷ 15 ∷ 7 ∷ 1 ∷ 2 ∷ 3 ∷ 4 ∷ 5 ∷ 6
    ∷ 7 ∷ 8 ∷ 9 ∷ 10 ∷ 11 ∷ 12 ∷ 13 ∷ 14 ∷ 15 ∷ []

abbrev payload : Bytes
payload = 1 ∷ 2 ∷ 3 ∷ []

abbrev root_document : Json
root_document = trust_root_document toy (toy.public_of private_key)

abbrev signed_envelope : Json
signed_envelope = obj (
    member "schema" (str (codes "forgemaster-update-channel/1")) (
      member "payload" (str (b64u payload)) (
        member "signatures"
          (arr (
            item
              (obj (
                member "key_id" (str (key_id toy private_key))
                  (member "sig" (str (b64u private_key)) no_members)))
              no_items))
          no_members)))

abbrev announced : Json
announced =
    announce_object (codes "1.2.0") (codes "abc") null (codes "f.whl") (9 ∷ []) (codes "1") no_items
      (codes "now") (codes "aaa" ∷ codes "aab" ∷ [])

abbrev stamp : Json
stamp = obj (member "sha" (str (codes "abc")) no_members)

abbrev no_maps : Json
no_maps = obj (member "maps" (arr no_items) no_members)

-- A codec for the documents of these examples: the number of the bytes says which it is.
abbrev load : Bytes → Option Json
load [] = some root_document
load (_ ∷ []) = some signed_envelope
load (_ ∷ _ ∷ []) = some stamp
load (_ ∷ _ ∷ _ ∷ []) = some announced
load (_ ∷ _ ∷ _ ∷ _ ∷ []) = some no_maps
load _ = none

abbrev dump : Json → Bytes
dump (obj (member k v no_members)) = []
dump _ = 2 ∷ []

abbrev codec : JsonCodec
codec = record { loads = load; dumps = dump }

abbrev pub env : Environment
env = record {
  json = codec;
  crypto = toy;
  keys_file = contents [];
  fetcher = λ url. valid (2 ∷ []);
  url = "https://example.org/channel.json";
  now = 5;
  is_writable = true;
}

envelope_is_signed : sign_envelope toy payload private_key ≡ some signed_envelope
unfolding sign_envelope
envelope_is_signed = refl

payload-IsBytes : IsBytes payload
payload-IsBytes = (omega arith, (omega arith, (omega arith, tt)))

dumped_root : [] ≡ dump root_document
unfolding trust_root_document
dumped_root = refl

loaded_root : load (dump root_document) ≡ some root_document
unfolding trust_root_document
loaded_root = refl

refresh-sign_envelope_example :
    (refresh env none).result
    ≡ some (outcome 5 (read_state none).last_success (parse_announce codec payload))
refresh-sign_envelope_example =
    refresh-sign_envelope env none payload private_key signed_envelope toy-IsSound payload-IsBytes
      envelope_is_signed refl refl (ap contents dumped_root) loaded_root

abbrev edition : Announce
edition = record {
  version = codes "1.2.0";
  sha = codes "abc";
  committed_at = some null;
  wheel_name = some (str (codes "f.whl"));
  wheel_sha256 = 9 ∷ [];
  lineage = codes "aaa" ∷ codes "aab" ∷ [];
}

payload_announces : parse_announce codec payload ≡ valid edition
unfolding parse_announce lookup texts_of text_items
payload_announces = refl

abbrev fresh : ChannelState
fresh = record { last_success = some (5, edition); last_attempt = (ok, some 5) }

refreshed : (refresh env none).result ≡ some fresh
refreshed =
    refresh-sign_envelope_example
    ∙ ap (λ m. some (outcome 5 (read_state none).last_success m)) payload_announces

refresh-IsAged_example : IsAged env (read_state none).last_success fresh
refresh-IsAged_example = refresh-IsAged env none fresh refreshed

read_verdict-refresh_example :
    read_verdict (refresh env none).file (some (codes "aab")) ≡ verdict fresh (some (codes "aab"))
read_verdict-refresh_example =
    read_verdict-refresh env none fresh (some (codes "aab")) refl refreshed

abbrev public_key : Key
public_key = record { key_id = key_id toy private_key; public = private_key }

one_key : trust_root codec toy (contents []) ≡ read (valid (public_key ∷ []))
one_key =
    ap (λ r. trust_root codec toy (contents r)) dumped_root
    ∙ trust_root-document codec toy private_key (clip-IsBytes private_key) loaded_root

abbrev offline : Environment
offline = record env { fetcher = λ url. refused unreachable; now = 9 }

abbrev known_before : Option StateFile
known_before = some (record { success = some (5, edition); attempt = some (ok, some 5) })

abbrev aged_state : ChannelState
aged_state = record {
  last_success = some (5, edition);
  last_attempt = (failed unreachable, some 9);
}

offline-refresh : (refresh offline known_before).result ≡ some aged_state
unfolding refresh read_announce read_state
offline-refresh = rw one_key refl

state_before : (read_state known_before).last_success ≡ some (5, edition)
unfolding read_state
state_before = refl

raises_not_utf8 : (refresh (record env { keys_file = not_utf8 }) none).result ≡ none
unfolding refresh trust_root
raises_not_utf8 = refl

refresh_asked_example :
    ((refresh env none).asked ≡ []) ⊎ HasKey (trust_root codec toy (contents []))
refresh_asked_example = refresh_asked env none

fetched :
    fetch (λ url. "https") (λ url. body (1 ∷ 2 ∷ [])) 2 "https://example.org" ≡ valid (1 ∷ 2 ∷ [])
unfolding fetch
fetched = refl

b64u_text-b64u_example : b64u_text (b64u payload) ≡ some payload
b64u_text-b64u_example = b64u_text-b64u payload payload-IsBytes

b64u_text-standard_example : b64u_text (map standard (codes "-_-_")) ≡ b64u_text (codes "-_-_")
b64u_text-standard_example = b64u_text-standard (codes "-_-_")

abbrev wheel : Wheel
wheel = record {
  name = codes "f.whl";
  octets = 9 ∷ [];
  stamp = some (0 ∷ 0 ∷ []);
  metadata = (codes "Name: f" ∷ codes "Version: 1.2.0 " ∷ []) ∷ [];
  maps = some (0 ∷ 0 ∷ 0 ∷ 0 ∷ []);
}

-- One signature by the key, one by a key that is not in the trust root.
abbrev rotating : Envelope
rotating = record {
  payload = payload;
  signatures =
      record { key_id = str (codes "old"); sig = 1 ∷ [] }
      ∷ record { key_id = str (key_id toy private_key); sig = private_key }
      ∷ [];
}

verify_envelope_lem_example : verify_envelope toy rotating (public_key ∷ []) ≡ (
    if any (accepts toy (public_key ∷ []) payload) rotating.signatures
    then valid payload
    else if any (names_known (public_key ∷ [])) rotating.signatures
    then refused bad_signature
    else refused unknown_key)
verify_envelope_lem_example = verify_envelope_lem toy rotating public_key [] refl
