-- ===== src/Terminal/Session.antt =====
-- src/forgemaster/terminal/registry.py: a session with its bounded scrollback, and the registry with
-- its reaper.
--
-- A byte is a number. What `os.read` gives is an argument, the empty list for EOF and for OSError; the
-- clock is a number of seconds, and `poll` whether the process has not exited. A session has a
-- serial number for the identity that `is` tests. `close` is the entry in the list of closed serials.
pub mod Scrollback
pub mod Reaper
use forgemaster.Prelude.{
  ℕ, ◌+◌, ◌-◌, String, Bool, true, false, not, ◌&&◌, ◌||◌, Option, none, some, List, [], ◌∷◌, ◌++◌,
  ◌==◌, ltb, leb, length, drop, str_eq, if◌then◌else◌, select_one, delete,
}

-- SCROLLBACK_CAP and DETACH_TTL_S
abbrev pub scrollback_cap : ℕ
scrollback_cap = 262144

abbrev pub detach_ttl : ℕ
detach_ttl = 1800

pub record PtySession : Type 0 where
  pub serial : ℕ
  pub scrollback : List ℕ
  pub total : ℕ
  pub eof : Bool
  pub detached_at : Option ℕ
  pub epoch : ℕ
  pub reader_installed : Bool
  pub polls_alive : Bool

abbrev pub new_session : ℕ → PtySession
new_session serial = record {
  serial = serial;
  scrollback = [];
  total = 0;
  eof = false;
  detached_at = none;
  epoch = 0;
  reader_installed = true;
  polls_alive = true;
}

-- `del self._scrollback[:overflow]` when there is one: `length - cap` stops at 0.
abbrev pub keep_tail : ℕ → List ℕ → List ℕ
keep_tail cap bytes = drop (length bytes - cap) bytes

unfoldable pub on_readable : ℕ → List ℕ → PtySession → PtySession
on_readable cap [] s = record s { eof = true; reader_installed = false }
on_readable cap (b ∷ bytes) s = record s {
  scrollback = keep_tail cap (s.scrollback ++ b ∷ bytes);
  total = s.total + length (b ∷ bytes);
}

-- The epoch and the cursor that it returns, and the session after it.
unfoldable pub attach : PtySession → (ℕ × ℕ) × PtySession
attach s = (
  (s.epoch + 1, s.total - length s.scrollback),
  record s { epoch = s.epoch + 1; detached_at = none },
)

abbrev pub first_some : Option ℕ → ℕ → Option ℕ
first_some none now = some now
first_some (some t) now = some t

unfoldable pub detach : ℕ → PtySession → PtySession
detach now s = record s { detached_at = first_some s.detached_at now }

abbrev pub alive : PtySession → Bool
alive s = not s.eof && s.polls_alive

abbrev pub window_start : PtySession → ℕ
window_start s = s.total - length s.scrollback

unfoldable pub read_from : ℕ → PtySession → List ℕ × ℕ
read_from cursor s =
    let at = if ltb cursor (window_start s) then window_start s else cursor in
    (drop (at - window_start s) s.scrollback, s.total)

-- The dict of the registry, and the serials of the sessions that were closed.
pub record Registry : Type 0 where
  pub sessions : List (String × PtySession)
  pub closed : List ℕ

abbrev pub at_project : String → String × PtySession → Bool
at_project project e = str_eq e.0 project

abbrev pub session_of : Option (String × PtySession) → Option PtySession
session_of none = none
session_of (some (p, s)) = some s

unfoldable pub get : String → Registry → Option PtySession
get project r = session_of (select_one (at_project project) r.sessions)

-- `session is None or cur is session`
abbrev pub same_session : Option PtySession → PtySession → Bool
same_session none cur = true
same_session (some s) cur = s.serial == cur.serial

abbrev pub pop_found : String → Option PtySession → Registry → Option PtySession → Registry
pop_found project session r none = r
pop_found project session r (some cur) =
    if same_session session cur
    then record r { sessions = delete (at_project project) r.sessions }
    else r

unfoldable pub pop : String → Option PtySession → Registry → Registry
unfolding get
pop project session r = pop_found project session r (get project r)

-- detached, and dead or for longer than the TTL
abbrev pub expired_at : ℕ → ℕ → PtySession → Option ℕ → Bool
expired_at now ttl s none = false
expired_at now ttl s (some t) = not (alive s) || leb ttl (now - t)

abbrev pub expired : ℕ → ℕ → PtySession → Bool
expired now ttl s = expired_at now ttl s s.detached_at

-- The loop of `reap` over the sessions that were there when it began.
unfoldable pub reap_loop : ℕ → ℕ → List (String × PtySession) → Registry → List String × Registry
unfolding pop
reap_loop now ttl [] r = ([], r)
reap_loop now ttl ((project, s) ∷ es) r =
    let closed_one : Registry = record r { closed = r.closed ++ s.serial ∷ [] } in
    let spared = reap_loop now ttl es r in
    let rest = reap_loop now ttl es (pop project (some s) closed_one) in
    if expired now ttl s then (project ∷ rest.0, rest.1) else spared

unfoldable pub reap : ℕ → ℕ → Registry → List String × Registry
unfolding reap_loop
reap now ttl r = reap_loop now ttl r.sessions r
