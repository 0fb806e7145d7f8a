-- ===== src/Update/Refresh.antt =====
-- `fetch`, `read_state`, `refresh`, `verdict` and `read_verdict` of src/forgemaster/update_channel.py.
--
-- `urlsplit(url).scheme` is an argument, as is what the network answers to the GET of a URL. The state
-- file holds the document of STATE_SCHEMA or something that is read as nothing. Reasons and log lines
-- are left out, and so is the count of the lineage that `_announced` adds for display.
pub mod Ageing
pub mod Persistence
use forgemaster.Prelude.{
  ℕ, ◌+◌, String, Bool, true, false, ◌&&◌, ◌||◌, not, Option, none, some, List, [], ◌∷◌, length,
  leb, ltb, take, if◌then◌else◌, str_eq, suc,
}
use forgemaster.Prelude.Text.{Text}
use forgemaster.Update.{
  Bytes, ChannelError, malformed, unknown_key, bad_signature, unreachable, internal, Checked, valid,
  refused, ◌>>=◌, Crypto, JsonCodec,
}
use forgemaster.Update.TrustRoot.{Key, KeysFile, RootRead, read, decode_error, trust_root}
use forgemaster.Update.Envelope.{parse_envelope, verify_envelope}
use forgemaster.Update.Announce.{
  Announce, parse_announce, Standing, never, no_trust_root, unverified, cut_off, situate,
}

-- MAX_BODY
abbrev pub max_body : ℕ
max_body = 262144

-- What the request meets: an HTTP error, another failure of the network, or the whole body served.
pub data Response : Type 0 where
  http_error url_error : Response
  body : Bytes → Response

-- `resp.read(max_bytes + 1)`, refused when it is longer than `max_bytes`
abbrev pub read_body : ℕ → Bytes → Checked Bytes
read_body max_bytes served =
    let got = take (suc max_bytes) served in
    if ltb max_bytes (length got) then refused malformed else valid got

abbrev pub receive : ℕ → Response → Checked Bytes
receive max_bytes http_error = refused unreachable
receive max_bytes url_error = refused unreachable
receive max_bytes (body served) = read_body max_bytes served

unfoldable pub fetch : (String → String) → (String → Response) → ℕ → String → Checked Bytes
fetch scheme_of serve max_bytes url =
    if str_eq (scheme_of url) "http" || str_eq (scheme_of url) "https"
    then receive max_bytes (serve url)
    else refused malformed

-- the `state` of an attempt
pub data Attempt : Type 0 where
  not_tried ok no_root : Attempt
  failed : ChannelError → Attempt

-- An attempt and its time; a time is a number.
abbrev pub Tried : Type 0
Tried = Attempt × Option ℕ

-- `last_success` and `last_attempt`
pub record ChannelState : Type 0 where
  pub last_success : Option (ℕ × Announce)
  pub last_attempt : Tried

-- The document of the state file: each of its fields when it is an object.
pub record StateFile : Type 0 where
  pub success : Option (ℕ × Announce)
  pub attempt : Option Tried

abbrev pub attempt_or_never : Option Tried → Tried
attempt_or_never none = (not_tried, none)
attempt_or_never (some t) = t

unfoldable pub read_state : Option StateFile → ChannelState
read_state none = record { last_success = none; last_attempt = (not_tried, none) }
read_state (some f) = record { last_success = f.success; last_attempt = attempt_or_never f.attempt }

-- Everything that a refresh meets: the keys file, the fetcher, its URL, the clock, whether the state
-- file can be written.
pub record Environment : Type 0 where
  pub json : JsonCodec
  pub crypto : Crypto
  pub keys_file : KeysFile
  pub fetcher : String → Checked Bytes
  pub url : String
  pub now : ℕ
  pub is_writable : Bool

-- The state file after the refresh, the URLs that it asked the fetcher for, and the state returned;
-- none when an exception leaves it.
pub record Refreshed : Type 0 where
  pub file : Option StateFile
  pub asked : List String
  pub result : Option ChannelState

-- fetch, parse, verify, and only then read what was signed
unfoldable pub read_announce : Environment → List Key → Checked Announce
read_announce env keys = do
  raw ← env.fetcher env.url
  envelope ← parse_envelope env.json raw
  payload ← verify_envelope env.crypto envelope keys
  parse_announce env.json payload

-- the state to return, from the success known before
abbrev pub aged : ℕ → Option (ℕ × Announce) → Attempt → ChannelState
aged now before a = record { last_success = before; last_attempt = (a, some now) }

abbrev pub outcome : ℕ → Option (ℕ × Announce) → Checked Announce → ChannelState
outcome now before (valid a) = aged now (some (now, a)) ok
outcome now before (refused e) = aged now before (failed e)

abbrev pub to_file : ChannelState → StateFile
to_file s = record { success = s.last_success; attempt = some s.last_attempt }

-- `_write_state`: an OSError leaves the file as it was.
abbrev pub write_state : Bool → Option StateFile → ChannelState → Option StateFile
write_state true file s = some (to_file s)
write_state false file s = file

abbrev pub written : Environment → Option StateFile → List String → ChannelState → Refreshed
written env file asked s = record {
  file = write_state env.is_writable file s;
  asked = asked;
  result = some s;
}

abbrev pub refresh_with : Environment → Option StateFile → RootRead → Refreshed
refresh_with env file decode_error = record { file = file; asked = []; result = none }
refresh_with env file (read (refused e)) =
    written env file [] (aged env.now (read_state file).last_success (failed e))
refresh_with env file (read (valid [])) =
    written env file [] (aged env.now (read_state file).last_success no_root)
refresh_with env file (read (valid (k ∷ ks))) =
    written env file (env.url ∷ [])
      (outcome env.now (read_state file).last_success (read_announce env (k ∷ ks)))

unfoldable pub refresh : Environment → Option StateFile → Refreshed
unfolding read_state
refresh env file = refresh_with env file (trust_root env.json env.crypto env.keys_file)

pub record Verdict : Type 0 where
  pub standing : Standing
  pub from_attempt : Bool
  pub attempt : Tried
  pub verified_at : Option ℕ
  pub announced : Option Announce

abbrev pub time_of : Option (ℕ × Announce) → Option ℕ
time_of none = none
time_of (some (t, a)) = some t

abbrev pub announce_in : Option (ℕ × Announce) → Option Announce
announce_in none = none
announce_in (some (t, a)) = some a

-- the standing, and whether it comes from the last attempt
abbrev pub standing_of : Attempt → Option (ℕ × Announce) → Option Text → Standing × Bool
standing_of no_root success build_sha = (no_trust_root, true)
standing_of (failed bad_signature) success build_sha = (unverified, true)
standing_of (failed unknown_key) success build_sha = (unverified, true)
standing_of (failed _) none build_sha = (cut_off, true)
standing_of _ none build_sha = (never, true)
standing_of _ (some (t, a)) build_sha = (situate a build_sha, false)

unfoldable pub verdict : ChannelState → Option Text → Verdict
verdict s build_sha =
    let answer = standing_of s.last_attempt.0 s.last_success build_sha in
    record {
      standing = answer.0;
      from_attempt = answer.1;
      attempt = s.last_attempt;
      verified_at = time_of s.last_success;
      announced = announce_in s.last_success;
    }

unfoldable pub read_verdict : Option StateFile → Option Text → Verdict
read_verdict file build_sha = verdict (read_state file) build_sha
