-- ===== src/Secrets/Refine.antt =====
-- Any calls of the vault of src/forgemaster/secrets/file_store.py against the same calls of a dictionary.
use forgemaster.Prelude.{◌≡◌, refl, String, Option, List, [], ◌∷◌, ap, sym, subst}
use forgemaster.Prelude.Text.{Text}
use forgemaster.Update.{Json, Members, lookup, JsonCodec}
use forgemaster.Secrets.{
  Fernet, EncryptedFileStore, VaultAnswer, given, store_error, not_found, other_error, read_all,
  set_entry, new_entry, Fresh, put_secret, value_of, get_secret, delete_entry, delete_from,
}
use forgemaster.Secrets.Vault.{
  IsCipher, IsPrintable, Holds, forget, popped-Holds, put_secret-Holds, get_from-given,
  read_all-Holds,
}

pub data Call : Type 0 where
  puts : Fresh → Text → Option Text → Call
  gets : Fresh → String → Call
  deletes : Fresh → String → Call

pub data Reply : Type 0 where
  ref : VaultAnswer String → Reply
  value : VaultAnswer Json → Reply
  done : VaultAnswer {0} Unit → Reply

module _ (fernet : Fernet) (json : JsonCodec) where
  abbrev pub perform : Call → EncryptedFileStore → Reply × EncryptedFileStore
  perform (puts fresh v label) s = let r = put_secret fernet json fresh v label s in (ref r.0, r.1)
  perform (gets fresh name) s = let r = get_secret fernet json fresh name s in (value r.0, r.1)
  perform (deletes fresh name) s = let r = delete_entry fernet json fresh name s in (done r.0, r.1)

  -- the same call of a dictionary
  abbrev pub plainly : Call → Members → Reply × Members
  plainly (puts fresh v label) entries =
      (ref (given fresh.ref), set_entry fresh.ref (new_entry v label) entries)
  plainly (gets fresh name) entries = (value (value_of fernet json (lookup name entries)), entries)
  plainly (deletes fresh name) entries = (done (given tt), forget fernet json name entries)

  delete_from-Holds :
      IsCipher fernet
      → (fresh : Fresh) (name : String) (entries : Members)
        (r : VaultAnswer Members × EncryptedFileStore)
      → IsPrintable json (forget fernet json name entries)
      → r.0 ≡ given entries
      → Holds fernet json r.1 entries
      → ((delete_from fernet json fresh name r).0 ≡ given tt)
        × Holds fernet json
            (delete_from fernet json fresh name r).1
            (forget fernet json name entries)
  delete_from-Holds sound fresh name entries (given other, s) printed e h =
      let same : other ≡ entries = cc in
      subst
        (λ d.
          ((delete_from fernet json fresh name (given d, s)).0 ≡ given tt)
          × Holds fernet json (delete_from fernet json fresh name (given d, s)).1
              (forget fernet json name entries))
        (sym same) (refl, popped-Holds fernet json sound fresh name entries s printed h)
  delete_from-Holds sound fresh name entries (store_error, s) printed e h = absurd (cc)
  delete_from-Holds sound fresh name entries (not_found, s) printed e h = absurd (cc)
  delete_from-Holds sound fresh name entries (other_error, s) printed e h = absurd (cc)

  perform-plainly :
      IsCipher fernet
      → (call : Call) (entries : Members) (s : EncryptedFileStore)
      → IsPrintable json (plainly call entries).1
      → Holds fernet json s entries
      → ((perform call s).0 ≡ (plainly call entries).0)
        × Holds fernet json (perform call s).1 (plainly call entries).1
  unfolding get_secret delete_entry lookup
  perform-plainly sound (puts fresh v label) entries s printed h =
      let after = put_secret-Holds fernet json sound fresh v label entries s printed h in
      (ap ref after.0, after.1)
  perform-plainly sound (gets fresh name) entries s printed h =
      let read = read_all fernet json fresh.key s in
      let same = get_from-given fernet json name entries read (h fresh.key) in
      (
        ap (λ r. value (r.0)) same,
        subst (λ t. Holds fernet json t entries) (sym (ap (λ r. r.1) same))
            (read_all-Holds fernet json fresh.key entries s h),
      )
  perform-plainly sound (deletes fresh name) entries s printed h =
      let after =
        delete_from-Holds sound fresh name entries (read_all fernet json fresh.key s) printed
          (h fresh.key) (read_all-Holds fernet json fresh.key entries s h) in
      (ap done after.0, after.1)

  abbrev pub replies : List Call → EncryptedFileStore → List Reply
  replies [] s = []
  replies (c ∷ cs) s = (perform c s).0 ∷ replies cs (perform c s).1

  abbrev pub plain_replies : List Call → Members → List Reply
  plain_replies [] entries = []
  plain_replies (c ∷ cs) entries = (plainly c entries).0 ∷ plain_replies cs (plainly c entries).1

  -- the dictionaries that the calls pass through
  abbrev pub AllPrintable : List Call → Members → Type 0
  AllPrintable [] entries = Unit
  AllPrintable (c ∷ cs) entries =
      IsPrintable json (plainly c entries).1 × AllPrintable cs (plainly c entries).1

  -- When Fernet and the printer give back what they were given, a vault that reads as a dictionary
  -- answers every sequence of puts, gets and deletes as the dictionary does.
  pub replies-plain_replies :
      IsCipher fernet
      → (calls : List Call) (entries : Members) (s : EncryptedFileStore)
      → AllPrintable calls entries
      → Holds fernet json s entries
      → replies calls s ≡ plain_replies calls entries
  replies-plain_replies sound [] entries s printed h = refl
  replies-plain_replies sound (c ∷ cs) entries s printed h =
      let first = perform-plainly sound c entries s printed.0 h in
      let rest =
        replies-plain_replies sound cs (plainly c entries).1 (perform c s).1 printed.1 first.1 in
      cc
