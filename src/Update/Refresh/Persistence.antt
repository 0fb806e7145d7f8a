-- ===== src/Update/Refresh/Persistence.antt =====
-- `verdict` after `refresh`, of src/forgemaster/update_channel.py.
use forgemaster.Prelude.{ℕ, ◌≡◌, ◌∙◌, refl, Bool, true, false, Option, some, [], ◌∷◌, sym, ap}
use forgemaster.Prelude.Text.{Text}
use forgemaster.Update.{ChannelError, malformed, unreachable, internal, Checked, valid, refused}
use forgemaster.Update.TrustRoot.{RootRead, read, decode_error, trust_root}
use forgemaster.Update.Announce.{Announce, situate}
use forgemaster.Update.Refresh.{
  failed, ChannelState, StateFile, read_state, Environment, read_announce, outcome, write_state,
  refresh_with, refresh, verdict, read_verdict, standing_of,
}

some-inj {ℓ} : {A : Type ℓ} {a b : A} → some a ≡ some b → a ≡ b
some-inj h = cc

-- The failures that let the announce age.
pub data IsSoft : ChannelError → Type 0 where
  soft_network : IsSoft unreachable
  soft_shape : IsSoft malformed
  soft_defect : IsSoft internal

-- A soft failure of the last attempt leaves the verdict to the announce known before.
soft_standing :
    (e : ChannelError)
    → IsSoft e
    → (t : ℕ) (a : Announce) (sha : Option Text)
    → standing_of (failed e) (some (t, a)) sha ≡ (situate a sha, false)
soft_standing _ soft_network t a sha = refl
soft_standing _ soft_shape t a sha = refl
soft_standing _ soft_defect t a sha = refl

outcome_failed :
    (now : ℕ) (before : Option (ℕ × Announce)) (m : Checked Announce) (e : ChannelError)
    → (outcome now before m).last_attempt.0 ≡ failed e
    → (outcome now before m).last_success ≡ before
outcome_failed now before (valid a) e h = absurd (cc)
outcome_failed now before (refused x) e h = refl

refresh_with_failed :
    (env : Environment) (file : Option StateFile) (r : RootRead) (s : ChannelState)
    (e : ChannelError)
    → (refresh_with env file r).result ≡ some s
    → s.last_attempt.0 ≡ failed e
    → s.last_success ≡ (read_state file).last_success
refresh_with_failed env file decode_error s e h k = absurd (cc)
refresh_with_failed env file (read (refused x)) s e h k = rw (sym (some-inj h)) refl
refresh_with_failed env file (read (valid [])) s e h k = rw (sym (some-inj h)) refl
refresh_with_failed env file (read (valid (key ∷ ks))) s e h k = rw (sym (some-inj h)) (
    outcome_failed env.now (read_state file).last_success (read_announce env (key ∷ ks)) e
      (rw (sym (some-inj h)) at k))

-- A refresh that fails softly (the network, the shape of the answer, a defect) leaves an instance that
-- knew an announce situated by that announce, and the verdict keeps the announce's date.
pub refresh_soft :
    (env : Environment) (file : Option StateFile) (s : ChannelState) (e : ChannelError) (t : ℕ)
    (a : Announce) (sha : Option Text)
    → (refresh env file).result ≡ some s
    → s.last_attempt.0 ≡ failed e
    → IsSoft e
    → (read_state file).last_success ≡ some (t, a)
    → ((verdict s sha).standing ≡ situate a sha) × ((verdict s sha).verified_at ≡ some t)
unfolding refresh verdict
refresh_soft env file s e t a sha h k soft before =
    let root = trust_root env.json env.crypto env.keys_file in
    let kept : s.last_success ≡ some (t, a) = refresh_with_failed env file root s e h k ∙ before in
    rw (k, kept) (ap (λ p. p.0) (soft_standing e soft t a sha), refl)

write_state-read :
    (b : Bool) (file : Option StateFile) (s : ChannelState)
    → b ≡ true
    → read_state (write_state b file s) ≡ s
unfolding read_state
write_state-read true file s w = refl
write_state-read false file s w = absurd (cc)

refresh_with_persists :
    (env : Environment) (file : Option StateFile) (r : RootRead) (s : ChannelState)
    → env.is_writable ≡ true
    → (refresh_with env file r).result ≡ some s
    → read_state (refresh_with env file r).file ≡ s
unfolding read_state
refresh_with_persists env file decode_error s w h = absurd (cc)
refresh_with_persists env file (read (refused x)) s w h =
    write_state-read env.is_writable file _ w ∙ some-inj h
refresh_with_persists env file (read (valid [])) s w h =
    write_state-read env.is_writable file _ w ∙ some-inj h
refresh_with_persists env file (read (valid (key ∷ ks))) s w h =
    write_state-read env.is_writable file _ w ∙ some-inj h

-- When the state file can be written, the next process reads from it the verdict on the state that
-- the refresh returned.
pub read_verdict-refresh :
    (env : Environment) (file : Option StateFile) (s : ChannelState) (sha : Option Text)
    → env.is_writable ≡ true
    → (refresh env file).result ≡ some s
    → read_verdict (refresh env file).file sha ≡ verdict s sha
unfolding refresh read_verdict
read_verdict-refresh env file s sha w h =
    ap (λ x. verdict x sha)
      (refresh_with_persists env file (trust_root env.json env.crypto env.keys_file) s w h)
