-- ===== src/Update/Publish/Offer.antt =====
-- The announce that src/forgemaster/channel_publish.py builds, read by `parse_announce` and `situate` of
-- src/forgemaster/update_channel.py.
use forgemaster.Prelude.{ℕ, ◌≡◌, true, false, some, List, ◌∷◌, length, leb}
use forgemaster.Prelude.Text.{Text, text_mem}
use forgemaster.Update.{Bytes, Json, Items, valid, Crypto, JsonCodec}
use forgemaster.Update.Announce.{
  Announce, lineage_max, parse_announce, situate, available, up_to_date,
}
use forgemaster.Update.Publish.{Wheel, announce_object}

-- What a document that was built is made of.
record IsBuilt (c : Crypto) (decimal : ℕ → Text) (w : Wheel) (version : Text) (published_at : Text)
    (lineage : List Text) (d : Json) : Type 0 where
  first : ℕ
  later : Text
  committed : Json
  maps : Items
  in_bound : leb (length lineage) lineage_max ≡ true
  is_not_own : text_mem (first ∷ later) lineage ≡ false
  is_object :
      d
      ≡ announce_object version
          (first ∷ later)
          committed
          w.name
          (c.sha256_hex w.octets)
          (decimal (length w.octets))
          maps
          published_at
          lineage

-- What the client makes of a built announce.
abbrev pub IsOffered : JsonCodec → Bytes → Text → Text → List Text → Text → Type 0
IsOffered j raw version digest lineage older =
    (a : Announce) × (parse_announce j raw ≡ valid a)
    × (a.version ≡ version)
    × (a.wheel_sha256 ≡ digest)
    × (a.lineage ≡ lineage)
    × (situate a (some a.sha) ≡ up_to_date)
    × (situate a (some older) ≡ available)
