-- ===== src/Secrets.antt =====
-- src/forgemaster/secrets/file_store.py: the vault of credentials in two files.
--
-- Files are read and written without an OSError, and a key file holds a key. Fernet is a parameter, and
-- so are the key, the IV and the reference that a call generates. `json.loads` after the decoding of
-- UTF-8 is one parameter, as in the channel of the updates.
pub mod Vault
pub mod Refine
pub mod Map
use forgemaster.Prelude.{
  ℕ, ◌≡◌, String, Bool, true, false, Option, none, some, List, [], ◌∷◌, str_eq, if◌then◌else◌,
}
use forgemaster.Prelude.Text.{Text}
use forgemaster.Update.{Bytes, Json, null, str, obj, Members, no_members, member, lookup, JsonCodec}

-- Encryption of a plain text under a key, with the IV of the call; nothing on InvalidToken.
pub record Fernet : Type 0 where
  pub encrypt : Bytes → Bytes → Bytes → Bytes
  pub decrypt : Bytes → Bytes → Option Bytes

-- `master.key`, `store.enc` and `_cipher_obj`, which is its key here.
pub record EncryptedFileStore : Type 0 where
  pub master_key : Option Bytes
  pub store_enc : Option Bytes
  pub cipher_obj : Option Bytes

-- What a call gives: a value, or SecretStoreError, SecretNotFound, an exception of another class.
pub data VaultAnswer {ℓ} (A : Type ℓ) : Type ℓ where
  given : A → VaultAnswer A
  store_error not_found other_error : VaultAnswer A

-- `_load_or_create_key`
abbrev pub load_or_create_key : Bytes → Option Bytes → Bytes
load_or_create_key new_key none = new_key
load_or_create_key new_key (some key) = key

-- `_cipher`: the key in use, and the store that remembers it.
abbrev pub key_with : Bytes → Option Bytes → Option Bytes → Bytes
key_with new_key none master = load_or_create_key new_key master
key_with new_key (some key) master = key

abbrev pub master_with : Bytes → Option Bytes → Option Bytes → Option Bytes
master_with new_key none master = some (load_or_create_key new_key master)
master_with new_key (some key) master = master

abbrev pub key_in_use : Bytes → EncryptedFileStore → Bytes
key_in_use new_key s = key_with new_key s.cipher_obj s.master_key

abbrev pub with_key : Bytes → EncryptedFileStore → EncryptedFileStore
with_key new_key s = record s {
  master_key = master_with new_key s.cipher_obj s.master_key;
  cipher_obj = some (key_in_use new_key s);
}

-- `data if isinstance(data, dict) else {}`
abbrev pub members_of : Json → Members
members_of (obj entries) = entries
members_of _ = no_members

abbrev pub parsed_entries : Option Json → VaultAnswer Members
parsed_entries none = other_error
parsed_entries (some j) = given (members_of j)

abbrev pub decrypted : JsonCodec → Option Bytes → VaultAnswer Members
decrypted json none = store_error
decrypted json (some plain) = parsed_entries (json.loads plain)

-- `_read_all`: without a blob no cipher is built.
abbrev pub read_blob :
    Fernet
    → JsonCodec
    → Bytes
    → Option Bytes
    → EncryptedFileStore
    → VaultAnswer Members × EncryptedFileStore
read_blob fernet json new_key none s = (given no_members, s)
read_blob fernet json new_key (some blob) s =
    (decrypted json (fernet.decrypt (key_in_use new_key s) blob), with_key new_key s)

unfoldable pub read_all :
    Fernet → JsonCodec → Bytes → EncryptedFileStore → VaultAnswer Members × EncryptedFileStore
read_all fernet json new_key s = read_blob fernet json new_key s.store_enc s

-- `_write_all`
unfoldable pub write_all :
    Fernet → JsonCodec → Bytes → Bytes → Members → EncryptedFileStore → EncryptedFileStore
write_all fernet json new_key iv entries s = record (with_key new_key s) {
  store_enc = some (fernet.encrypt (key_in_use new_key s) iv (json.dumps (obj entries)));
}

-- `data[ref] = entry`
unfoldable pub set_entry : String → Json → Members → Members
set_entry ref entry no_members = member ref entry no_members
set_entry ref entry (member k v ms) =
    let rest = set_entry ref entry ms in if str_eq k ref then member k entry ms else member k v rest

-- `data.pop(ref)`
unfoldable pub pop_entry : String → Members → Members
pop_entry ref no_members = no_members
pop_entry ref (member k v ms) =
    let rest = pop_entry ref ms in if str_eq k ref then ms else member k v rest

-- `pop(ref, None) is None`
abbrev pub is_missing : Option Json → Bool
is_missing none = true
is_missing (some null) = true
is_missing (some _) = false

-- `label or ""`
abbrev pub label_text : Option Text → Text
label_text none = []
label_text (some label) = label

abbrev pub new_entry : Text → Option Text → Json
new_entry value label =
    obj (member "value" (str value) (member "label" (str (label_text label)) no_members))

-- What each call generates: a key if none is there, an IV, a reference.
pub record Fresh : Type 0 where
  pub key : Bytes
  pub iv : Bytes
  pub ref : String

module _ (fernet : Fernet) (json : JsonCodec) where
  abbrev pub put_into :
      Fresh
      → Json
      → VaultAnswer Members × EncryptedFileStore
      → VaultAnswer String × EncryptedFileStore
  put_into fresh entry (given entries, s) = (
    given fresh.ref,
    write_all fernet json fresh.key fresh.iv (set_entry fresh.ref entry entries) s,
  )
  put_into fresh entry (store_error, s) = (store_error, s)
  put_into fresh entry (not_found, s) = (not_found, s)
  put_into fresh entry (other_error, s) = (other_error, s)

  unfoldable pub put_secret :
      Fresh → Text → Option Text → EncryptedFileStore → VaultAnswer String × EncryptedFileStore
  unfolding read_all write_all set_entry
  put_secret fresh value label s =
      put_into fresh (new_entry value label) (read_all fernet json fresh.key s)

  -- `entry["value"]`
  abbrev pub value_of : Option Json → VaultAnswer Json
  value_of none = not_found
  value_of (some null) = not_found
  value_of (some (obj entry)) = elim (lookup "value" entry) [
    | none ↦ other_error
    | some v ↦ given v
  ]
  value_of (some _) = other_error

  abbrev pub get_from :
      String → VaultAnswer Members × EncryptedFileStore → VaultAnswer Json × EncryptedFileStore
  get_from ref (given entries, s) = (value_of (lookup ref entries), s)
  get_from ref (store_error, s) = (store_error, s)
  get_from ref (not_found, s) = (not_found, s)
  get_from ref (other_error, s) = (other_error, s)

  unfoldable pub get_secret :
      Fresh → String → EncryptedFileStore → VaultAnswer Json × EncryptedFileStore
  unfolding read_all lookup
  get_secret fresh ref s = get_from ref (read_all fernet json fresh.key s)

  -- Only when something was popped the blob is written.
  abbrev pub popped :
      Fresh → String → Members → EncryptedFileStore → Option Json → EncryptedFileStore
  popped fresh ref entries s found =
      if is_missing found
      then s
      else write_all fernet json fresh.key fresh.iv (pop_entry ref entries) s

  abbrev pub delete_from :
      Fresh
      → String
      → VaultAnswer Members × EncryptedFileStore
      → VaultAnswer {0} Unit × EncryptedFileStore
  delete_from fresh ref (given entries, s) =
      (given tt, popped fresh ref entries s (lookup ref entries))
  delete_from fresh ref (store_error, s) = (store_error, s)
  delete_from fresh ref (not_found, s) = (not_found, s)
  delete_from fresh ref (other_error, s) = (other_error, s)

  unfoldable pub delete_entry :
      Fresh → String → EncryptedFileStore → VaultAnswer {0} Unit × EncryptedFileStore
  unfolding read_all write_all pop_entry lookup
  delete_entry fresh ref s = delete_from fresh ref (read_all fernet json fresh.key s)
