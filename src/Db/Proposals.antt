-- ===== src/Db/Proposals.antt =====
-- src/forgemaster/db/proposals.py: what the user answered to the proposal of each version, and
-- src/forgemaster/update_proposals.py, the bridge from a turn of the channel.
--
-- The table is the list of its rows; `version` is its key. `sqlite3.Error` at any statement of
-- `enregistre` is an argument, a failure that leaves the table as it was: one of the commit is taken to have
-- written nothing. A time is a number.
pub mod Refine
pub mod Consent
pub mod Tour
use forgemaster.Prelude.{
  ℕ, String, Bool, true, false, not, ◌&&◌, Option, none, some, List, [], ◌∷◌, ◌++◌, elem, str_eq,
  if◌then◌else◌, select_one, update,
}
use forgemaster.Prelude.Text.{Text, text_eq}
use forgemaster.Update.Announce.{Announce, Standing, available}
use forgemaster.Update.Refresh.{
  Environment, StateFile, ChannelState, Refreshed, refresh, Verdict, verdict,
}

pub record Proposal : Type 0 where
  pub version : Text
  pub sha : Text
  pub state : String
  pub first_seen_at : ℕ
  pub decided_at : Option ℕ
  pub updated_at : ℕ

abbrev pub decidables : List String
decidables = "deferred" ∷ "declined" ∷ "accepted" ∷ []

-- WHERE version = ?
abbrev pub of_version : Text → Proposal → Bool
of_version v p = text_eq p.version v

unfoldable pub lire : Text → List Proposal → Option Proposal
lire v rows = select_one (of_version v) rows

-- the proposal when it is still about this SHA
abbrev pub same_sha : Text → Option Proposal → Option Proposal
same_sha sha none = none
same_sha sha (some p) = if text_eq p.sha sha then some p else none

unfoldable pub etat : Text → Text → List Proposal → Option Proposal
unfolding lire
etat version sha rows = same_sha sha (lire version rows)

abbrev pub proposed : Text → Text → ℕ → Proposal
proposed version sha ts = record {
  version = version;
  sha = sha;
  state = "proposed";
  first_seen_at = ts;
  decided_at = none;
  updated_at = ts;
}

-- SET sha = ?, state = 'proposed', decided_at = NULL, updated_at = ?
abbrev pub reopened : Text → ℕ → Proposal → Proposal
reopened sha ts p = record p { sha = sha; state = "proposed"; decided_at = none; updated_at = ts }

-- The table written, and the row read again.
abbrev pub enregistre_found : Text → Text → ℕ → Option Proposal → List Proposal → List Proposal
enregistre_found version sha ts none rows = rows ++ proposed version sha ts ∷ []
enregistre_found version sha ts (some p) rows =
    if text_eq p.sha sha then rows else update (of_version version) (reopened sha ts) rows

unfoldable pub enregistre : Bool → Text → Text → ℕ → List Proposal → List Proposal × Option Proposal
unfolding lire
enregistre fails version sha ts rows =
    let rows' = enregistre_found version sha ts (lire version rows) rows in
    if fails then (rows, none) else (rows', lire version rows')

-- The exceptions of the user's gestures, or the row.
pub data Answer : Type 0 where
  value_error key_error : Answer
  row : Option Proposal → Answer

abbrev pub chosen : String → ℕ → Proposal → Proposal
chosen state ts p = record p { state = state; decided_at = some ts; updated_at = ts }

abbrev pub decide_found :
    Text → String → ℕ → Option Proposal → List Proposal → List Proposal × Answer
decide_found version state ts none rows = (rows, key_error)
decide_found version state ts (some p) rows =
    let rows' = update (of_version version) (chosen state ts) rows in
    (rows', row (select_one (of_version version) rows'))

unfoldable pub decide : Text → Text → String → ℕ → List Proposal → List Proposal × Answer
unfolding etat lire
decide version sha state ts rows =
    if elem state decidables
    then decide_found version state ts (etat version sha rows) rows
    else (rows, value_error)

abbrev pub cleared : ℕ → Proposal → Proposal
cleared ts p = record p { state = "proposed"; decided_at = none; updated_at = ts }

abbrev pub revoque_found : Text → ℕ → Option Proposal → List Proposal → List Proposal × Answer
revoque_found version ts none rows = (rows, key_error)
revoque_found version ts (some p) rows =
    let rows' = update (of_version version) (cleared ts) rows in
    if str_eq p.state "declined"
    then (rows', row (select_one (of_version version) rows'))
    else (rows, value_error)

unfoldable pub revoque : Text → ℕ → List Proposal → List Proposal × Answer
unfolding lire
revoque version ts rows = revoque_found version ts (lire version rows) rows

-- A call on the table, whichever it is.
pub data Call : Type 0 where
  announce : Bool → Text → Text → ℕ → Call
  choose : Text → Text → String → ℕ → Call
  revoke : Text → ℕ → Call

unfoldable pub perform : Call → List Proposal → List Proposal
unfolding enregistre decide revoque
perform (announce fails v sha ts) rows = (enregistre fails v sha ts rows).0
perform (choose v sha state ts) rows = (decide v sha state ts rows).0
perform (revoke v ts) rows = (revoque v ts rows).0

unfoldable pub perform_all : List Call → List Proposal → List Proposal
unfolding perform
perform_all [] rows = rows
perform_all (call ∷ calls) rows = perform_all calls (perform call rows)

abbrev pub is_available : Standing → Bool
is_available available = true
is_available _ = false

-- `if not version or not sha`
abbrev pub note_announced :
    Bool → ℕ → Option Announce → List Proposal → List Proposal × Option Proposal
note_announced fails ts none rows = (rows, none)
note_announced fails ts (some a) rows = note_texts fails ts a.version a.sha rows
  where
    note_texts : Bool → ℕ → Text → Text → List Proposal → List Proposal × Option Proposal
    note_texts fails ts (v ∷ vs) (s ∷ ss) rows = enregistre fails (v ∷ vs) (s ∷ ss) ts rows
    note_texts fails ts _ _ rows = (rows, none)

-- A store that cannot be opened is a failure, too.
unfoldable pub note_verdict : Bool → ℕ → Verdict → List Proposal → List Proposal × Option Proposal
unfolding enregistre
note_verdict fails ts v rows =
    if is_available v.standing then note_announced fails ts v.announced rows else (rows, none)

-- The refresh and the table after a turn of the channel; an exception of the refresh leaves the turn.
abbrev pub noted :
    Bool
    → ℕ
    → Option Text
    → Refreshed
    → Option ChannelState
    → List Proposal
    → Refreshed × List Proposal
noted fails ts build_sha r none rows = (r, rows)
noted fails ts build_sha r (some s) rows = (r, (note_verdict fails ts (verdict s build_sha) rows).0)

unfoldable pub tour :
    Environment
    → Option StateFile
    → Option Text
    → Bool
    → ℕ
    → List Proposal
    → Refreshed × List Proposal
unfolding note_verdict
tour env file build_sha fails ts rows =
    noted fails ts build_sha (refresh env file) (refresh env file).result rows
