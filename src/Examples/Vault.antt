-- ===== src/Examples/Vault.antt =====
-- One credential, with a cipher that writes the plain text and a printer of one document.
use forgemaster.Prelude.{◌≡◌, refl, none, some, List, [], ◌∷◌}
use forgemaster.Prelude.Text.{Text, codes}
use forgemaster.Update.{Bytes, obj, Members, no_members, lookup, JsonCodec}
use forgemaster.Secrets.{Fernet, EncryptedFileStore, Fresh, set_entry, new_entry, given, read_all}
use forgemaster.Secrets.Vault.{IsCipher}
use forgemaster.Secrets.Refine.{Call, puts, gets, replies}
use forgemaster.Secrets.Map.{map_replies, replies-map_replies}

abbrev toy : Fernet
toy = record { encrypt = λ key iv plain. plain; decrypt = λ key token. some token }

toy-IsCipher : IsCipher toy
toy-IsCipher = record { decrypt-encrypt = λ key iv plain. refl }

abbrev fresh : Fresh
fresh = record { key = 7 ∷ []; iv = 1 ∷ []; ref = "a1" }

abbrev token : Text
token = codes "hunter2"

abbrev vault : Members
vault = set_entry "a1" (new_entry token none) no_members

abbrev one_document : JsonCodec
one_document = record { loads = λ bytes. some (obj vault); dumps = λ j. [] }

abbrev empty : EncryptedFileStore
empty = record { master_key = none; store_enc = none; cipher_obj = none }

empty_reads : (key : Bytes) → (read_all toy one_document key empty).0 ≡ given no_members
unfolding read_all
empty_reads key = refl

abbrev calls : List Call
calls = puts fresh token none ∷ gets fresh "a1" ∷ gets fresh "b2" ∷ []

replies-map_replies_example :
    replies toy one_document calls empty
    ≡ map_replies toy one_document calls (λ x. lookup x no_members)
replies-map_replies_example =
    replies-map_replies toy one_document toy-IsCipher calls no_members empty tt
      (refl, (refl, (refl, tt))) empty_reads
