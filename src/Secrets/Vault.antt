-- ===== src/Secrets/Vault.antt =====
-- The two files of src/forgemaster/secrets/file_store.py against a plain dictionary.
use forgemaster.Prelude.{
  ◌≡◌, refl, String, Option, none, some, arith, ap, Bool-cases, inl, inr, sym, ◌∙◌, subst,
  if◌then◌else◌,
}
use text.Mathlib.TextPositions.{eq_refl}
use forgemaster.Prelude.Text.{Text}
use forgemaster.Update.{Bytes, Json, str, obj, Members, no_members, member, lookup, JsonCodec}
use forgemaster.Secrets.{
  Fernet, EncryptedFileStore, VaultAnswer, given, not_found, store_error, other_error, key_in_use,
  with_key, decrypted, read_all, write_all, set_entry, pop_entry, new_entry, Fresh, put_secret,
  put_into, value_of, get_secret, get_from, popped, is_missing, parsed_entries, read_blob,
}

-- What is decrypted under the key that encrypted it is as it was.
pub record IsCipher (fernet : Fernet) : Type 0 where
  pub decrypt-encrypt :
      (key iv plain : Bytes) → fernet.decrypt key (fernet.encrypt key iv plain) ≡ some plain

-- A dictionary that is printed is parsed as it was.
abbrev pub IsPrintable : JsonCodec → Members → Type 0
IsPrintable json entries = json.loads (json.dumps (obj entries)) ≡ some (obj entries)

-- A text that was put under a reference is found there.
lookup-set_entry :
    (ref : String) (entry : Json) (ms : Members) → lookup ref (set_entry ref entry ms) ≡ some entry
unfolding lookup set_entry
lookup-set_entry ref entry no_members = rw (eq_refl ref) refl
lookup-set_entry ref entry (member k v ms) = ground (arith, lookup-set_entry ref entry ms)

module _ (fernet : Fernet) (json : JsonCodec) where
  -- Whatever key a call would generate, it reads this dictionary.
  abbrev pub Holds : EncryptedFileStore → Members → Type 0
  Holds s entries = (key : Bytes) → (read_all fernet json key s).0 ≡ given entries

  write_all-Holds :
      IsCipher fernet
      → (key iv : Bytes) (entries : Members) (s : EncryptedFileStore) → IsPrintable json entries
      → Holds (write_all fernet json key iv entries s) entries
  unfolding read_all write_all
  write_all-Holds sound key iv entries s printed other =
      ap (decrypted json) (sound.decrypt-encrypt (key_in_use key s) iv (json.dumps (obj entries)))
      ∙ ap parsed_entries printed

  read_blob-Holds :
      (key : Bytes) (entries : Members) (blob : Option Bytes) (s : EncryptedFileStore)
      → s.store_enc ≡ blob
      → ((other : Bytes) → (read_blob fernet json other blob s).0 ≡ given entries)
      → Holds (read_blob fernet json key blob s).1 entries
  unfolding read_all
  read_blob-Holds key entries none s e h other =
      subst (λ b. (read_blob fernet json other b s).0 ≡ given entries) (sym e) (h other)
  read_blob-Holds key entries (some blob) s e h other =
      subst (λ b. (read_blob fernet json other b (with_key key s)).0 ≡ given entries) (sym e)
        (h key)

  pub read_all-Holds :
      (key : Bytes) (entries : Members) (s : EncryptedFileStore)
      → Holds s entries
      → Holds (read_all fernet json key s).1 entries
  unfolding read_all
  read_all-Holds key entries s h = read_blob-Holds key entries s.store_enc s refl h

  -- The dictionary after a `pop`.
  abbrev pub forget : String → Members → Members
  forget ref entries = if is_missing (lookup ref entries) then entries else pop_entry ref entries

  pub popped-Holds :
      IsCipher fernet
      → (fresh : Fresh) (ref : String) (entries : Members) (s : EncryptedFileStore)
      → IsPrintable json (forget ref entries)
      → Holds s entries
      → Holds (popped fernet json fresh ref entries s (lookup ref entries)) (forget ref entries)
  popped-Holds sound fresh ref entries s printed h =
      elim (Bool-cases (is_missing (lookup ref entries))) [
        | inl e ↦ rw e h
        | inr e ↦
            rw e
              (write_all-Holds sound fresh.key fresh.iv (pop_entry ref entries) s (rw e at printed))
      ]

  -- The store after a read, whatever the answer was.
  put_into-Holds :
      IsCipher fernet
      → (fresh : Fresh) (entry : Json) (entries : Members)
        (r : VaultAnswer Members × EncryptedFileStore)
      → IsPrintable json (set_entry fresh.ref entry entries)
      → r.0 ≡ given entries
      → ((put_into fernet json fresh entry r).0 ≡ given fresh.ref)
        × Holds (put_into fernet json fresh entry r).1 (set_entry fresh.ref entry entries)
  put_into-Holds sound fresh entry entries (given other, s) printed e =
      let same : other ≡ entries = cc in
      subst
        (λ d.
          ((put_into fernet json fresh entry (given d, s)).0 ≡ given fresh.ref)
          × Holds (put_into fernet json fresh entry (given d, s)).1
              (set_entry fresh.ref entry entries))
        (sym same)
        (
          refl,
          write_all-Holds sound fresh.key fresh.iv (set_entry fresh.ref entry entries) s printed,
        )
  put_into-Holds sound fresh entry entries (store_error, s) printed e = absurd (cc)
  put_into-Holds sound fresh entry entries (not_found, s) printed e = absurd (cc)
  put_into-Holds sound fresh entry entries (other_error, s) printed e = absurd (cc)

  -- A text that is put is got back by its reference.
  pub put_secret-Holds :
      IsCipher fernet
      → (fresh : Fresh) (value : Text) (label : Option Text) (entries : Members)
        (s : EncryptedFileStore)
      → IsPrintable json (set_entry fresh.ref (new_entry value label) entries)
      → Holds s entries
      → ((put_secret fernet json fresh value label s).0 ≡ given fresh.ref)
        × Holds
            (put_secret fernet json fresh value label s).1
            (set_entry fresh.ref (new_entry value label) entries)
  unfolding put_secret
  put_secret-Holds sound fresh value label entries s printed h =
      put_into-Holds sound fresh (new_entry value label) entries (read_all fernet json fresh.key s)
        printed (h fresh.key)

  pub get_from-given :
      (ref : String) (entries : Members) (r : VaultAnswer Members × EncryptedFileStore)
      → r.0 ≡ given entries
      → get_from fernet json ref r ≡ (value_of fernet json (lookup ref entries), r.1)
  get_from-given ref entries (given other, s) e =
      let same : other ≡ entries = cc in ap (λ d. (value_of fernet json (lookup ref d), s)) same
  get_from-given ref entries (store_error, s) e = absurd (cc)
  get_from-given ref entries (not_found, s) e = absurd (cc)
  get_from-given ref entries (other_error, s) e = absurd (cc)

  -- The value that is put is the one that a later call gets, under the reference that the put gave.
  pub get_secret-put_secret :
      IsCipher fernet
      → (fresh later : Fresh) (value : Text) (label : Option Text) (entries : Members)
        (s : EncryptedFileStore)
      → IsPrintable json (set_entry fresh.ref (new_entry value label) entries)
      → Holds s entries
      → (get_secret fernet json later fresh.ref (put_secret fernet json fresh value label s).1).0
        ≡ given (str value)
  unfolding get_secret lookup
  get_secret-put_secret sound fresh later value label entries s printed h =
      let after = put_secret-Holds sound fresh value label entries s printed h in
      let entry = new_entry value label in
      ap (λ r. r.0)
        (get_from-given fresh.ref (set_entry fresh.ref entry entries) _ (after.1 later.key))
      ∙ ap (value_of fernet json) (lookup-set_entry fresh.ref entry entries)
