-- ===== src/Update/Publish.antt =====
-- src/forgemaster/channel_publish.py: the announce of a wheel, its envelope and the document of the
-- trust root.
--
-- The wheel is what `zipfile` reads in it: of `_build.json` and `maps.json`, nothing when the member is
-- not there; of the members named `….dist-info/METADATA`, their lines. A refusal keeps no message.
pub mod RoundTrip
pub mod Offer
use forgemaster.Prelude.{
  ℕ, String, Bool, true, false, ◌&&◌, ◌||◌, not, Option, none, some, List, [], ◌∷◌, map, length,
  leb, ltb, drop, ◌==◌, any, if◌then◌else◌,
}
use forgemaster.Prelude.Text.{Text, text_eq, text_mem, codes, starts_with}
use forgemaster.Update.{
  Bytes, Json, null, bool, num, str, arr, obj, Items, no_items, item, Members, no_members, member,
  lookup, field, Crypto, JsonCodec,
}
use forgemaster.Update.Base64.{b64u}
use forgemaster.Update.TrustRoot.{key_id}
use forgemaster.Update.Envelope.{envelope_schema, signing_message}
use forgemaster.Update.Announce.{announce_schema, lineage_max}

pub record Wheel : Type 0 where
  pub name : Text
  pub octets : Bytes
  pub stamp : Option Bytes
  pub metadata : List (List Text)
  pub maps : Option Bytes

-- `_member`, then `json.loads`: nothing is the PublishError.
abbrev pub member_document : JsonCodec → Option Bytes → Option Json
member_document j none = none
member_document j (some raw) = j.loads raw

abbrev pub object_of : Option Json → Option Members
object_of (some (obj ms)) = some ms
object_of _ = none

unfoldable pub read_stamp : JsonCodec → Wheel → Option Members
read_stamp j w = object_of (member_document j w.stamp)

-- the white space that `str.strip` drops
abbrev pub is_space : ℕ → Bool
is_space c =
    (leb 9 c && leb c 13)
    || (leb 28 c && leb c 32)
    || c == 133
    || c == 160
    || c == 5760
    || (leb 8192 c && leb c 8202)
    || c == 8232
    || c == 8233
    || c == 8239
    || c == 8287
    || c == 12288

unfoldable pub lstrip : Text → Text
lstrip [] = []
lstrip (c ∷ t) = let rest = lstrip t in if is_space c then rest else c ∷ t

abbrev pub keep_unless_blank : ℕ → Text → Text
keep_unless_blank c [] = if is_space c then [] else c ∷ []
keep_unless_blank c (d ∷ t) = c ∷ d ∷ t

unfoldable pub rstrip : Text → Text
rstrip [] = []
rstrip (c ∷ t) = keep_unless_blank c (rstrip t)

-- the first line that declares the version
unfoldable pub version_line : List Text → Option Text
version_line [] = none
version_line (line ∷ lines) =
    if starts_with (codes "Version:") line
    then some (rstrip (lstrip (drop 8 line)))
    else version_line lines

unfoldable pub version_of : List (List Text) → Option Text
version_of (lines ∷ []) = version_line lines
version_of _ = none

abbrev pub map_entry : Option Json → Option Json → Option Items → Option Items
map_entry (some name) (some sha) (some rest) =
    some (item (obj (member "name" name (member "sha" sha no_members))) rest)
map_entry _ _ _ = none

unfoldable pub map_entries : Items → Option Items
map_entries no_items = some no_items
map_entries (item m ms) = map_entry (field "name" m) (field "sha" m) (map_entries ms)

-- To go over a list, an empty text or an empty object; other documents raise TypeError.
abbrev pub each_map : Option Json → Option Items
each_map (some (arr ms)) = map_entries ms
each_map (some (str [])) = some no_items
each_map (some (obj no_members)) = some no_items
each_map _ = none

abbrev pub maps_in : Option Json → Option Items
maps_in (some d) = each_map (field "maps" d)
maps_in none = none

unfoldable pub maps_of : JsonCodec → Wheel → Option Items
maps_of j w = maps_in (member_document j w.maps)

-- `if not sha`, of a SHA that is a text; a stamp whose SHA is of another type is not modelled.
abbrev pub stamp_sha : Option Json → Option Text
stamp_sha (some (str (c ∷ t))) = some (c ∷ t)
stamp_sha _ = none

-- `tampon.get("committed_at")`, None for a key that is not there
abbrev pub or_null : Option Json → Json
or_null none = null
or_null (some v) = v

unfoldable pub text_items : List Text → Items
text_items [] = no_items
text_items (t ∷ ts) = item (str t) (text_items ts)

abbrev pub announce_object :
    Text → Text → Json → Text → Text → Text → Items → Text → List Text → Json
announce_object version sha committed_at name digest size maps published_at lineage = obj (
    member "schema" (str announce_schema) (
      member "published_at" (str published_at) (
        member "edition"
          (obj (
            member "version" (str version) (
              member "sha" (str sha) (
                member "committed_at" committed_at (
                  member "wheel"
                    (obj (
                      member "name" (str name)
                        (member "sha256" (str digest) (member "size" (num size) no_members))))
                    (member "maps" (arr maps) no_members))))))
          (member "lineage" (arr (text_items lineage)) no_members))))

-- the guards on the lineage, and the document
abbrev pub announce_checked :
    Crypto
    → (ℕ → Text)
    → Wheel
    → Members
    → Text
    → Items
    → Option Text
    → Text
    → List Text
    → Option Json
announce_checked c decimal w stamp version maps none published_at lineage = none
announce_checked c decimal w stamp version maps (some sha) published_at lineage =
    if ltb lineage_max (length lineage)
    then none
    else if text_mem sha lineage
    then none
    else some (
        announce_object version sha (or_null (lookup "committed_at" stamp)) w.name
          (c.sha256_hex w.octets) (decimal (length w.octets)) maps published_at lineage)

abbrev pub announce_parts :
    Crypto
    → (ℕ → Text)
    → Wheel
    → Option Members
    → Option Text
    → Option Items
    → Text
    → List Text
    → Option Json
announce_parts c decimal w (some stamp) (some version) (some maps) published_at lineage =
    announce_checked c decimal w stamp version maps (stamp_sha (lookup "sha" stamp)) published_at
      lineage
announce_parts c decimal w _ _ _ published_at lineage = none

-- `decimal` writes a number.
unfoldable pub build_announce :
    JsonCodec → Crypto → (ℕ → Text) → Wheel → List Text → Text → Option Json
build_announce j c decimal w lineage published_at =
    announce_parts c decimal w (read_stamp j w) (version_of w.metadata) (maps_of j w) published_at
      lineage

abbrev pub envelope_object : Text → Text → Text → Json
envelope_object payload id sig = obj (
    member "schema" (str envelope_schema) (
      member "payload" (str payload) (
        member "signatures"
          (arr (item (obj (member "key_id" (str id) (member "sig" (str sig) no_members))) no_items))
          no_members)))

-- Nothing is the PublishError on a private key that is not of 32 bytes.
unfoldable pub sign_envelope : Crypto → Bytes → Bytes → Option Json
sign_envelope c payload private_raw =
    if length private_raw == 32
    then some (
        envelope_object (b64u payload) (key_id c (c.public_of private_raw))
          (b64u (c.sign private_raw (signing_message payload))))
    else none

-- the document that `json.dumps` writes
unfoldable pub trust_root_document : Crypto → Bytes → Json
trust_root_document c public_raw = obj (
    member "keys"
      (arr (
        item
          (obj (
            member "key_id" (str (key_id c public_raw))
              (member "public" (str (b64u public_raw)) no_members)))
          no_items))
      no_members)
