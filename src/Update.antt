-- ===== src/Update.antt =====
-- src/forgemaster/update_channel.py and channel_publish.py: the values that the channel's modules share,
-- JSON documents, refusals and the parameters that stand for cryptography and for the JSON printer.
--
-- A byte is a number below 256, a text a list of code points. `json.loads` is a parameter, from bytes to
-- the document or to nothing on ValueError; a document's numbers keep their text.
pub mod Base64
pub mod TrustRoot
pub mod Envelope
pub mod Announce
pub mod Refresh
pub mod Publish
pub mod Apply
pub mod Snapshots
pub mod Health
pub mod Wheels
pub mod Runs
pub mod Preflight
use forgemaster.Prelude.{
  refl, ℕ, ◌<◌, String, Bool, Option, none, some, List, str_eq, if◌then◌else◌, ◌≡◌, All,
}
use forgemaster.Prelude.Text.{Text}

abbrev pub Bytes : Type 0
Bytes = List ℕ

abbrev pub IsBytes : Bytes → Type 0
IsBytes = All (λ b. b < 256)

mutual
  pub data Json : Type 0 where
    null : Json
    bool : Bool → Json
    num : Text → Json
    str : Text → Json
    arr : Items → Json
    obj : Members → Json

  pub data Items : Type 0 where
    no_items : Items
    item : Json → Items → Items

  pub data Members : Type 0 where
    no_members : Members
    member : String → Json → Members → Members

-- `data.get(key)` of an object
unfoldable pub lookup : String → Members → Option Json
lookup key no_members = none
lookup key (member k v ms) = if str_eq k key then some v else lookup key ms

-- `json.loads` of bytes, nothing on ValueError, and `json.dumps` with its encoding.
pub record JsonCodec : Type 0 where
  pub loads : Bytes → Option Json
  pub dumps : Json → Bytes

-- The refusals of the channel, and `internal` for an exception of another class.
pub data ChannelError : Type 0 where
  malformed unknown_key bad_signature unreachable internal : ChannelError

pub data Checked {ℓ} (A : Type ℓ) : Type ℓ where
  valid : A → Checked A
  refused : ChannelError → Checked A

infixl 5 ◌>>=◌
abbrev pub ◌>>=◌ {ℓ κ} : {A : Type ℓ} {B : Type κ} → Checked A → (A → Checked B) → Checked B
valid a >>= f = f a
refused e >>= f = refused e

-- What the channel uses of `hashlib` and of `cryptography`: the hexadecimal SHA-256, and of Ed25519 the
-- public key of a private one, the signature of a message and its verification.
pub record Crypto : Type 0 where
  pub sha256_hex : Bytes → Text
  pub public_of : Bytes → Bytes
  pub sign : Bytes → Bytes → Bytes
  pub verify : Bytes → Bytes → Bytes → Bool

-- A refusal of the shape.
abbrev pub shaped {ℓ} : {A : Type ℓ} → Option A → Checked A
shaped none = refused malformed
shaped (some a) = valid a

-- a field by its key, of an object
abbrev pub field : String → Json → Option Json
field key (obj ms) = lookup key ms
field key _ = none

pub valid-inj {ℓ} : {A : Type ℓ} {a b : A} → valid a ≡ valid b → a ≡ b
valid-inj h = cc

-- A chain that gives a value gave one at its first link.
pub >>=-valid {ℓ κ} :
    {A : Type ℓ} {B : Type κ} (m : Checked A) (f : A → Checked B) {b : B}
    → (m >>= f) ≡ valid b
    → (a : A) × (m ≡ valid a) × (f a ≡ valid b)
>>=-valid (valid a) f h = (a, refl, h)
>>=-valid (refused e) f h = cc
