-- ===== src/Update/Announce.antt =====
-- `parse_announce`, `situate` and `_announced` of src/forgemaster/update_channel.py.
--
-- What is kept of an announce is what the channel reads of it afterwards. The reasons are left out.
use forgemaster.Prelude.{ℕ, Option, none, some, List, [], ◌∷◌, length, leb, if◌then◌else◌}
use forgemaster.Prelude.Text.{Text, text_eq, text_mem, codes}
use forgemaster.Update.{
  Bytes, Json, str, arr, obj, Items, no_items, item, Members, lookup, malformed, Checked, valid,
  refused, shaped, ◌>>=◌, JsonCodec,
}
use forgemaster.Update.Envelope.{has_schema}

abbrev pub announce_schema : Text
announce_schema = codes "forgemaster-edition-announce/1"

-- LINEAGE_MAX
abbrev pub lineage_max : ℕ
lineage_max = 50

pub record Announce : Type 0 where
  pub version : Text
  pub sha : Text
  pub committed_at : Option Json
  pub wheel_name : Option Json
  pub wheel_sha256 : Text
  pub lineage : List Text

-- a text that is not empty
abbrev pub text_field : Option Json → Checked Text
text_field (some (str (c ∷ t))) = valid (c ∷ t)
text_field _ = refused malformed

abbrev pub object_field : Option Json → Checked Members
object_field (some (obj ms)) = valid ms
object_field _ = refused malformed

abbrev pub cons_text : Json → Option (List Text) → Option (List Text)
cons_text (str t) (some ts) = some (t ∷ ts)
cons_text _ _ = none

-- `all(isinstance(x, str) for x in lineage)`, with the texts
unfoldable pub texts_of : Items → Option (List Text)
texts_of no_items = some []
texts_of (item j js) = cons_text j (texts_of js)

-- `data.get("lineage", [])`
abbrev pub lineage_texts : Option Json → Option (List Text)
lineage_texts none = some []
lineage_texts (some (arr js)) = texts_of js
lineage_texts (some _) = none

abbrev pub capped : List Text → Checked (List Text)
capped ts = if leb (length ts) lineage_max then valid ts else refused malformed

abbrev pub announce_of : Members → Checked Announce
announce_of ms = do
  edition ← object_field (lookup "edition" ms)
  version ← text_field (lookup "version" edition)
  sha ← text_field (lookup "sha" edition)
  wheel ← object_field (lookup "wheel" edition)
  sha256 ← text_field (lookup "sha256" wheel)
  texts ← shaped (lineage_texts (lookup "lineage" ms))
  lineage ← capped texts
  valid (record {
    version = version;
    sha = sha;
    committed_at = lookup "committed_at" edition;
    wheel_name = lookup "name" wheel;
    wheel_sha256 = sha256;
    lineage = lineage;
  })

abbrev pub announce_document : Option Json → Checked Announce
announce_document (some (obj ms)) =
    if has_schema announce_schema (lookup "schema" ms) then announce_of ms else refused malformed
announce_document _ = refused malformed

unfoldable pub parse_announce : JsonCodec → Bytes → Checked Announce
parse_announce j raw = announce_document (j.loads raw)

-- What the verdict of the channel may be; `situate` gives the last three.
pub data Standing : Type 0 where
  never no_trust_root unverified cut_off up_to_date available cannot_situate : Standing

-- `if build_sha == …`, `if build_sha in lignee`, where there is a SHA
unfoldable pub situate : Announce → Option Text → Standing
situate a none = cannot_situate
situate a (some []) = cannot_situate
situate a (some (c ∷ t)) =
    if text_eq (c ∷ t) a.sha
    then up_to_date
    else if text_mem (c ∷ t) a.lineage
    then available
    else cannot_situate
