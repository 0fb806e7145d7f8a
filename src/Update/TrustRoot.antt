-- ===== src/Update/TrustRoot.antt =====
-- `key_id`, `trust_root` and `b64u_decode` of src/forgemaster/update_channel.py.
use forgemaster.Prelude.{
  Bool, false, Option, none, some, List, [], ◌∷◌, ◌++◌, any, take, if◌then◌else◌,
}
use forgemaster.Prelude.Text.{Text, text_eq}
use forgemaster.Update.{
  Bytes, Json, str, arr, Items, no_items, item, field, malformed, Checked, valid, refused, shaped,
  ◌>>=◌, Crypto, JsonCodec,
}
use forgemaster.Update.Base64.{b64u_text}

unfoldable pub key_id : Crypto → Bytes → Text
key_id c public_bytes = take 16 (c.sha256_hex public_bytes)

unfoldable pub b64u_decode : Json → Checked Bytes
b64u_decode (str s) = shaped (b64u_text s)
b64u_decode _ = refused malformed

-- `_keys/release-keys.json`: not there, an OSError, not UTF-8, or its contents
pub data KeysFile : Type 0 where
  absent os_error not_utf8 : KeysFile
  contents : Bytes → KeysFile

pub record Key : Type 0 where
  pub key_id : Text
  pub public : Bytes

-- `declared != derived` of a declared value that may be any document
abbrev pub declares : Json → Text → Bool
declares (str t) derived = text_eq t derived
declares _ derived = false

abbrev pub check_key : Crypto → List Key → Json → Bytes → Checked (List Key)
check_key c out declared pub_bytes =
    let derived = key_id c pub_bytes in
    if declares declared derived
    then (if any (λ k. text_eq k.key_id derived) out
        then refused malformed
        else valid (out ++ record { key_id = derived; public = pub_bytes } ∷ []))
    else refused malformed

-- one turn of the loop over the entries
unfoldable pub add_key : Crypto → List Key → Json → Checked (List Key)
add_key c out e = do
  declared ← shaped (field "key_id" e)
  encoded ← shaped (field "public" e)
  pub_bytes ← b64u_decode encoded
  check_key c out declared pub_bytes

unfoldable pub add_keys : Crypto → List Key → Items → Checked (List Key)
add_keys c out no_items = valid out
add_keys c out (item e es) = add_key c out e >>= λ out'. add_keys c out' es

-- a list of entries that is not empty
abbrev pub entries_of : Option Json → Checked Items
entries_of (some (arr (item e es))) = valid (item e es)
entries_of _ = refused malformed

abbrev pub root_of : Crypto → Option Json → Checked (List Key)
root_of c none = refused malformed
root_of c (some document) = entries_of (field "keys" document) >>= add_keys c []

-- The outcome, or the UnicodeDecodeError that no clause of `trust_root` takes.
pub data RootRead : Type 0 where
  read : Checked (List Key) → RootRead
  decode_error : RootRead

unfoldable pub trust_root : JsonCodec → Crypto → KeysFile → RootRead
trust_root j c absent = read (valid [])
trust_root j c os_error = read (refused malformed)
trust_root j c not_utf8 = decode_error
trust_root j c (contents raw) = read (root_of c (j.loads raw))
