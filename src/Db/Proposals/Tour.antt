-- ===== src/Db/Proposals/Tour.antt =====
-- The turn of src/forgemaster/update_proposals.py: what it may write in the table of the proposals.
use forgemaster.Prelude.{
  ℕ, ◌≡◌, refl, Bool, true, Option, none, some, List, ◌⊎◌, inl, inr, Bool-cases,
}
use forgemaster.Prelude.Text.{Text}
use forgemaster.Update.Announce.{Announce, Standing, available, situate}
use forgemaster.Update.{malformed, unknown_key, bad_signature, unreachable, internal}
use forgemaster.Update.Refresh.{
  Environment, StateFile, ChannelState, refresh, verdict, read_state, Attempt, ok, no_root,
  not_tried, failed, standing_of,
}
use forgemaster.Update.Refresh.Ageing.{IsAged, refresh-IsAged}
use forgemaster.Db.Proposals.{Proposal, note_verdict, is_available, noted, tour}

-- The edition that a verdict offers.
abbrev pub IsOffered : Option Text → Option (ℕ × Announce) → Type 0
IsOffered build_sha success =
    (t : ℕ) × (a : Announce) × (success ≡ some (t, a)) × (situate a build_sha ≡ available)

available_of : (x : Standing) → is_available x ≡ true → x ≡ available
available_of Standing.never h = absurd (cc)
available_of Standing.no_trust_root h = absurd (cc)
available_of Standing.unverified h = absurd (cc)
available_of Standing.cut_off h = absurd (cc)
available_of Standing.up_to_date h = absurd (cc)
available_of Standing.available h = refl
available_of Standing.cannot_situate h = absurd (cc)

standing_of-available :
    (x : Attempt) (success : Option (ℕ × Announce)) (build_sha : Option Text)
    → is_available (standing_of x success build_sha).0 ≡ true
    → IsOffered build_sha success
standing_of-available no_root success b h = absurd (cc)
standing_of-available (failed bad_signature) success b h = absurd (cc)
standing_of-available (failed unknown_key) success b h = absurd (cc)
standing_of-available (failed malformed) none b h = absurd (cc)
standing_of-available (failed unreachable) none b h = absurd (cc)
standing_of-available (failed internal) none b h = absurd (cc)
standing_of-available not_tried none b h = absurd (cc)
standing_of-available ok none b h = absurd (cc)
standing_of-available (failed malformed) (some (t, a)) b h =
    (t, a, refl, available_of (situate a b) h)
standing_of-available (failed unreachable) (some (t, a)) b h =
    (t, a, refl, available_of (situate a b) h)
standing_of-available (failed internal) (some (t, a)) b h =
    (t, a, refl, available_of (situate a b) h)
standing_of-available not_tried (some (t, a)) b h = (t, a, refl, available_of (situate a b) h)
standing_of-available ok (some (t, a)) b h = (t, a, refl, available_of (situate a b) h)

note_verdict-available :
    (fails : Bool) (ts : ℕ) (s : ChannelState) (b : Option Text) (rows : List Proposal)
    → ((note_verdict fails ts (verdict s b) rows).0 ≡ rows) ⊎ IsOffered b s.last_success
unfolding note_verdict verdict
note_verdict-available fails ts s b rows =
    elim (Bool-cases (is_available (standing_of s.last_attempt.0 s.last_success b).0)) [
      | inl e ↦ inr (standing_of-available s.last_attempt.0 s.last_success b e)
      | inr e ↦ rw e (inl refl)
    ]

-- What a turn that writes has behind it: an announce that its state keeps, that is the one known
-- before or authentic, and of which this instance's build is an ancestor.
abbrev pub IsBacked : Environment → Option StateFile → Option Text → Type 0
IsBacked env file b =
    (s : ChannelState) × ((refresh env file).result ≡ some s)
    × IsAged env (read_state file).last_success s
    × IsOffered b s.last_success

noted-IsBacked :
    (env : Environment) (file : Option StateFile) (b : Option Text) (fails : Bool) (ts : ℕ)
    (rows : List Proposal) (o : Option ChannelState)
    → (refresh env file).result ≡ o
    → ((noted fails ts b (refresh env file) o rows).1 ≡ rows) ⊎ IsBacked env file b
noted-IsBacked env file b fails ts rows none h = inl refl
noted-IsBacked env file b fails ts rows (some s) h =
    elim (note_verdict-available fails ts s b rows) [
      | inl e ↦ inl e
      | inr offered ↦ inr (s, h, refresh-IsAged env file s h, offered)
    ]

-- A turn of the channel leaves the proposals as they were, or the state it returns keeps an announce
-- that was known before or is authentic, and that offers itself to this instance's build.
pub tour-IsBacked :
    (env : Environment) (file : Option StateFile) (b : Option Text) (fails : Bool) (ts : ℕ)
    (rows : List Proposal)
    → ((tour env file b fails ts rows).1 ≡ rows) ⊎ IsBacked env file b
unfolding tour
tour-IsBacked env file b fails ts rows =
    noted-IsBacked env file b fails ts rows (refresh env file).result refl
