-- ===== src/Secrets/Map.antt =====
-- The vault of src/forgemaster/secrets/file_store.py against a map from the references to the entries.
use forgemaster.Prelude.{
  String, ◌≡◌, refl, false, Option, none, some, List, [], ◌∷◌, sym, subst, ◌∙◌, str_eq, eq_iff,
  arith, Bool-cases, inl, inr, if◌then◌else◌,
}
use forgemaster.Update.{Json, Members, no_members, member, lookup, JsonCodec}
use forgemaster.Secrets.{
  Fernet, EncryptedFileStore, given, set_entry, pop_entry, new_entry, is_missing, value_of,
}
use forgemaster.Secrets.Vault.{IsCipher, Holds, forget}
use forgemaster.Secrets.Refine.{
  Call, puts, gets, deletes, Reply, ref, value, done, plainly, replies, plain_replies, AllPrintable,
  replies-plain_replies,
}

-- A reference comes once.
abbrev pub IsUnique : Members → Type 0
IsUnique no_members = Unit
IsUnique (member k v ms) = (lookup k ms ≡ none) × IsUnique ms

lookup-set_entry :
    (x name : String) (e : Json) (ms : Members)
    → lookup x (set_entry name e ms) ≡ (if str_eq name x then some e else lookup x ms)
unfolding lookup set_entry
lookup-set_entry x name e no_members = refl
lookup-set_entry x name e (member k v ms) =
    ground (arith, lookup-set_entry x name e ms, eq_iff k name, eq_iff k x, eq_iff name x)

lookup-pop_entry :
    (x name : String) (ms : Members)
    → IsUnique ms
    → lookup x (pop_entry name ms) ≡ (if str_eq name x then none else lookup x ms)
unfolding lookup pop_entry
lookup-pop_entry x name no_members u = ground arith
lookup-pop_entry x name (member k v ms) u = elim (Bool-cases (str_eq k name)) [
  | inl e ↦
      let same : k ≡ name = ground (arith, e, eq_iff k name) in
      rw e (popped_first x k name v ms same u.0)
  | inr e ↦
      rw e (
        ground (arith, e, lookup-pop_entry x name ms u.1, eq_iff k x, eq_iff name x, eq_iff k name))
]
  where
    popped_first :
        (x k name : String) (v : Json) (ms : Members)
        → k ≡ name
        → lookup k ms ≡ none
        → lookup x ms
          ≡ (if str_eq name x then none else (if str_eq k x then some v else lookup x ms))
    popped_first x k name v ms same gone = elim (Bool-cases (str_eq name x)) [
      | inl f ↦
          let is_x : name ≡ x = ground (arith, f, eq_iff name x) in
          rw f (subst (λ y. lookup y ms ≡ none) (same ∙ is_x) gone)
      | inr f ↦ rw (f, subst (λ y. str_eq y x ≡ false) (sym same) f) refl
    ]

set_entry-IsUnique :
    (name : String) (e : Json) (ms : Members) → IsUnique ms → IsUnique (set_entry name e ms)
unfolding set_entry lookup
set_entry-IsUnique name e no_members u = (refl, tt)
set_entry-IsUnique name e (member k v ms) u = elim (Bool-cases (str_eq k name)) [
  | inl f ↦ rw f u
  | inr f ↦
      let other : str_eq name k ≡ false = ground (arith, f, eq_iff k name, eq_iff name k) in
      rw f (lookup-set_entry k name e ms ∙ rw other u.0, set_entry-IsUnique name e ms u.1)
]

lookup-pop_none :
    (x name : String) (ms : Members) → lookup x ms ≡ none → lookup x (pop_entry name ms) ≡ none
unfolding lookup pop_entry
lookup-pop_none x name no_members h = h
lookup-pop_none x name (member k v ms) h = elim (Bool-cases (str_eq k name)) [
  | inl e ↦ rw e (ground (arith, h))
  | inr e ↦ rw e (ground (arith, h, lookup-pop_none x name ms))
]

pop_entry-IsUnique : (name : String) (ms : Members) → IsUnique ms → IsUnique (pop_entry name ms)
unfolding pop_entry
pop_entry-IsUnique name no_members u = u
pop_entry-IsUnique name (member k v ms) u = elim (Bool-cases (str_eq k name)) [
  | inl e ↦ rw e u.1
  | inr e ↦ rw e (lookup-pop_none k name ms u.0, pop_entry-IsUnique name ms u.1)
]

-- A map from the references to the entries.
abbrev pub Vault : Type 0
Vault = String → Option Json

module _ (fernet : Fernet) (json : JsonCodec) where
  abbrev pub on_map : Call → Vault → Reply × Vault
  on_map (puts fresh v label) m =
      (ref (given fresh.ref), λ x. if str_eq fresh.ref x then some (new_entry v label) else m x)
  on_map (gets fresh name) m = (value (value_of fernet json (m name)), m)
  on_map (deletes fresh name) m = (
    done (given tt),
    λ x. if is_missing (m name) then m x else (if str_eq name x then none else m x),
  )

  abbrev pub map_replies : List Call → Vault → List Reply
  map_replies [] m = []
  map_replies (c ∷ cs) m = (on_map c m).0 ∷ map_replies cs (on_map c m).1

  -- The dictionary reads as the map.
  record Reads (entries : Members) (m : Vault) : Type 0 where
    unique : IsUnique entries
    agrees : (x : String) → lookup x entries ≡ m x

  forget-agrees :
      (name x : String) (entries : Members) (m : Vault)
      → Reads entries m
      → lookup x (forget fernet json name entries)
        ≡ (if is_missing (m name) then m x else (if str_eq name x then none else m x))
  forget-agrees name x entries m h = elim (Bool-cases (is_missing (m name))) [
    | inl e ↦ rw (h.agrees name, e) (h.agrees x)
    | inr e ↦
        rw (h.agrees name, e) (lookup-pop_entry x name entries h.unique ∙ rw (h.agrees x) refl)
  ]

  forget-IsUnique :
      (name : String) (entries : Members)
      → IsUnique entries
      → IsUnique (forget fernet json name entries)
  forget-IsUnique name entries u = elim (Bool-cases (is_missing (lookup name entries))) [
    | inl e ↦ rw e u
    | inr e ↦ rw e (pop_entry-IsUnique name entries u)
  ]

  plainly-Reads :
      (c : Call) (entries : Members) (m : Vault)
      → Reads entries m
      → ((plainly fernet json c entries).0 ≡ (on_map c m).0)
        × Reads (plainly fernet json c entries).1 (on_map c m).1
  plainly-Reads (puts fresh v label) entries m h = (
    refl,
    record {
      unique = set_entry-IsUnique fresh.ref (new_entry v label) entries h.unique;
      agrees = λ x. lookup-set_entry x fresh.ref (new_entry v label) entries ∙ rw (h.agrees x) refl;
    },
  )
  plainly-Reads (gets fresh name) entries m h = (rw (h.agrees name) refl, h)
  plainly-Reads (deletes fresh name) entries m h = (
    refl,
    record {
      unique = forget-IsUnique name entries h.unique;
      agrees = λ x. forget-agrees name x entries m h;
    },
  )

  plain_replies-map_replies :
      (calls : List Call) (entries : Members) (m : Vault)
      → Reads entries m
      → plain_replies fernet json calls entries ≡ map_replies calls m
  plain_replies-map_replies [] entries m h = refl
  plain_replies-map_replies (c ∷ cs) entries m h =
      let first = plainly-Reads c entries m h in
      let rest =
        plain_replies-map_replies cs (plainly fernet json c entries).1 (on_map c m).1 first.1 in
      cc

  -- When Fernet and the printer give back what they were given, a vault that reads as a dictionary, each
  -- reference once, answers every sequence of puts, gets and deletes as a map from the references to the
  -- entries does: a put adds one, a get reads one, a delete takes out one that is there.
  pub replies-map_replies :
      IsCipher fernet
      → (calls : List Call) (entries : Members) (s : EncryptedFileStore) → IsUnique entries
      → AllPrintable fernet json calls entries
      → Holds fernet json s entries
      → replies fernet json calls s ≡ map_replies calls (λ x. lookup x entries)
  replies-map_replies sound calls entries s unique printed h =
      replies-plain_replies fernet json sound calls entries s printed h
      ∙ plain_replies-map_replies calls entries (λ x. lookup x entries)
          (record { unique = unique; agrees = λ x. refl })
