-- ===== src/Update/Envelope.antt =====
-- `signing_message`, `parse_envelope` and `verify_envelope` of src/forgemaster/update_channel.py.
--
-- A refusal keeps its class and not its message. The message of an unknown key joins the identifiers,
-- which raises TypeError at one that is not a text, as the dict does at a list or an object: `internal`.
pub mod Verdict
use forgemaster.Prelude.{
  Bool, true, false, ◌&&◌, Option, none, some, List, [], ◌∷◌, ◌++◌, all, if◌then◌else◌,
}
use forgemaster.Prelude.Text.{Text, text_eq, codes}
use forgemaster.Update.{
  Bytes, Json, str, arr, obj, null, bool, num, Items, no_items, item, Members, field, lookup,
  ChannelError, malformed, unknown_key, bad_signature, internal, Checked, valid, refused, shaped,
  ◌>>=◌, Crypto, JsonCodec,
}
use forgemaster.Update.TrustRoot.{Key, b64u_decode}

abbrev pub envelope_schema : Text
envelope_schema = codes "forgemaster-update-channel/1"

-- `_DOMAIN + payload`
unfoldable pub signing_message : Bytes → Bytes
signing_message payload = (envelope_schema ++ 10 ∷ []) ++ payload

pub record Signature : Type 0 where
  pub key_id : Json
  pub sig : Bytes

pub record Envelope : Type 0 where
  pub payload : Bytes
  pub signatures : List Signature

-- `data.get("schema") != …`
abbrev pub has_schema : Text → Option Json → Bool
has_schema schema (some (str t)) = text_eq t schema
has_schema schema _ = false

abbrev pub parse_signature : Json → Checked Signature
parse_signature s = do
  key_id ← shaped (field "key_id" s)
  encoded ← shaped (field "sig" s)
  sig ← b64u_decode encoded
  valid (record { key_id = key_id; sig = sig })

unfoldable pub parse_signatures : Items → Checked (List Signature)
parse_signatures no_items = valid []
parse_signatures (item s rest) = do
  first ← parse_signature s
  others ← parse_signatures rest
  valid (first ∷ others)

-- a list of signatures that is not empty
abbrev pub signature_items : Option Json → Checked Items
signature_items (some (arr (item s rest))) = valid (item s rest)
signature_items _ = refused malformed

abbrev pub envelope_of : Members → Checked Envelope
envelope_of ms = do
  items ← signature_items (lookup "signatures" ms)
  signatures ← parse_signatures items
  encoded ← shaped (lookup "payload" ms)
  payload ← b64u_decode encoded
  valid (record { payload = payload; signatures = signatures })

abbrev pub envelope_document : Option Json → Checked Envelope
envelope_document (some (obj ms)) =
    if has_schema envelope_schema (lookup "schema" ms) then envelope_of ms else refused malformed
envelope_document _ = refused malformed

unfoldable pub parse_envelope : JsonCodec → Bytes → Checked Envelope
parse_envelope j raw = envelope_document (j.loads raw)

-- The dict of the keys by their identifiers: of two keys with one, the later.
unfoldable pub known : Text → List Key → Option Bytes
known t [] = none
known t (k ∷ ks) = known_later (known t ks) (if text_eq k.key_id t then some k.public else none)
  where
    known_later : Option Bytes → Option Bytes → Option Bytes
    known_later none here = here
    known_later (some p) here = some p

-- `connues.get(key_id)`
pub data Looked : Type 0 where
  unhashable missing : Looked
  found : Bytes → Looked

abbrev pub looked : Option Bytes → Looked
looked none = missing
looked (some p) = found p

abbrev pub look_up : List Key → Json → Looked
look_up keys (str t) = looked (known t keys)
look_up keys (arr _) = unhashable
look_up keys (obj _) = unhashable
look_up keys _ = missing

abbrev pub is_text : Json → Bool
is_text (str _) = true
is_text _ = false

-- When no signature verified: the identifiers of unknown keys, and of known keys that failed.
abbrev pub no_signature : List Json → List Json → Checked Bytes
no_signature unknown (_ ∷ _) = refused bad_signature
no_signature unknown [] = refused (if all is_text unknown then unknown_key else internal)

-- One turn of the loop, with the loop after an unknown key and the loop after a failure.
abbrev pub try_signature :
    Crypto → Bytes → Signature → Looked → Checked Bytes → Checked Bytes → Checked Bytes
try_signature c payload s unhashable on_unknown on_failure = refused internal
try_signature c payload s missing on_unknown on_failure = on_unknown
try_signature c payload s (found p) on_unknown on_failure =
    if c.verify p s.sig (signing_message payload) then valid payload else on_failure

unfoldable pub try_all :
    Crypto → List Key → Bytes → List Signature → List Json → List Json → Checked Bytes
try_all c keys payload [] unknown failed = no_signature unknown failed
try_all c keys payload (s ∷ ss) unknown failed =
    let on_unknown = try_all c keys payload ss (unknown ++ s.key_id ∷ []) failed in
    let on_failure = try_all c keys payload ss unknown (failed ++ s.key_id ∷ []) in
    try_signature c payload s (look_up keys s.key_id) on_unknown on_failure

unfoldable pub verify_envelope : Crypto → Envelope → List Key → Checked Bytes
verify_envelope c envelope [] = refused unknown_key
verify_envelope c envelope (k ∷ ks) = try_all c (k ∷ ks) envelope.payload envelope.signatures [] []
