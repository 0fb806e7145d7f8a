-- ===== src/Examples/Terminal.antt =====
-- A session that overflows its scrollback, and a reap past the TTL.
use forgemaster.Prelude.{
  ℕ, ◌≡◌, refl, some, List, [], ◌∷◌, drop, length, ltb, if◌then◌else◌, ◌-◌, delete, select_one,
}
use forgemaster.Terminal.Session.{
  PtySession, new_session, on_readable, read_from, Registry, get, pop, reap, reap_loop, detach_ttl,
}
use forgemaster.Terminal.Session.Scrollback.{feed, output, feed-read_from}
use forgemaster.Terminal.Session.Reaper.{IsOnly}

abbrev chunks : List (List ℕ)
chunks = (1 ∷ 2 ∷ 3 ∷ []) ∷ (4 ∷ 5 ∷ []) ∷ []

late_client : (read_from 0 (feed 3 chunks (new_session 1))).0 ≡ 3 ∷ 4 ∷ 5 ∷ []
unfolding read_from feed on_readable
late_client = refl

feed-read_from_example :
    ((read_from 4 (feed 3 chunks (new_session 1))).0
      ≡ drop
          (if ltb 4 (length (output chunks) - 3) then length (output chunks) - 3 else 4)
          (output chunks))
    × ((read_from 4 (feed 3 chunks (new_session 1))).1 ≡ length (output chunks))
feed-read_from_example = feed-read_from 3 chunks 1 4

abbrev attached : PtySession
attached = new_session 1

abbrev gone : PtySession
gone = record (new_session 2) { detached_at = some 100 }

abbrev registry : Registry
registry = record { sessions = ("demo", attached) ∷ ("old", gone) ∷ []; closed = [] }

reaps_the_old : (reap 1900 detach_ttl registry).0 ≡ "old" ∷ []
unfolding reap reap_loop pop get delete select_one
reaps_the_old = refl

found : get "demo" registry ≡ some attached
unfolding get select_one
found = refl

one_entry : IsOnly "demo" attached registry.sessions
one_entry = ((λ e. refl), ((λ e. absurd (cc)), tt))
