-- ===== src/Db/Proposals/Refine.antt =====
-- The table of src/forgemaster/db/proposals.py as a map from versions, one machine for each version.
use forgemaster.Prelude.{
  ℕ, ◌≡◌, refl, String, true, false, Option, none, some, List, [], ◌∷◌, ◌++◌, arith, elem, str_eq,
  if◌then◌else◌, select_one, update, ap, ◌∙◌, sym, Bool-cases, inl, inr,
}
use forgemaster.Prelude.Text.{Text, text_eq, text_eq_iff, text_eq_sound}
use forgemaster.Db.Proposals.{
  Proposal, decidables, of_version, lire, same_sha, etat, proposed, reopened, enregistre,
  enregistre_found, chosen, cleared, decide, decide_found, revoque, revoque_found, Call, announce,
  choose, revoke, perform, perform_all,
}

-- What a version was announced with and what was answered: nothing, or a proposal.
abbrev pub on_announce : Text → Text → ℕ → Option Proposal → Option Proposal
on_announce v sha ts none = some (proposed v sha ts)
on_announce v sha ts (some p) = if text_eq p.sha sha then some p else some (reopened sha ts p)

abbrev pub on_choice : Text → String → ℕ → Option Proposal → Option Proposal
on_choice sha state ts none = none
on_choice sha state ts (some p) =
    if elem state decidables
    then if text_eq p.sha sha then some (chosen state ts p) else some p
    else some p

abbrev pub on_revocation : ℕ → Option Proposal → Option Proposal
on_revocation ts none = none
on_revocation ts (some p) = if str_eq p.state "declined" then some (cleared ts p) else some p

-- the machine of one version
unfoldable pub step : Text → Call → Option Proposal → Option Proposal
step w (announce fails v sha ts) cell =
    if fails then cell else if text_eq v w then on_announce v sha ts cell else cell
step w (choose v sha state ts) cell = if text_eq v w then on_choice sha state ts cell else cell
step w (revoke v ts) cell = if text_eq v w then on_revocation ts cell else cell

unfoldable pub steps : Text → List Call → Option Proposal → Option Proposal
steps w [] cell = cell
steps w (call ∷ calls) cell = steps w calls (step w call cell)

abbrev written_at : Text → Text → (Proposal → Proposal) → Option Proposal → Option Proposal
written_at w v f none = none
written_at w v f (some p) = if text_eq v w then some (f p) else some p

written_elsewhere :
    (w v : Text) (f : Proposal → Proposal) (o : Option Proposal)
    → text_eq v w ≡ false
    → written_at w v f o ≡ o
written_elsewhere w v f none e = refl
written_elsewhere w v f (some p) e = rw e refl

-- An UPDATE of one version, seen from another.
lire-update :
    (w v : Text) (f : Proposal → Proposal) (rows : List Proposal)
    → ((p : Proposal) → (f p).version ≡ p.version)
    → lire w (update (of_version v) f rows) ≡ written_at w v f (lire w rows)
unfolding lire select_one update
lire-update w v f [] keep = refl
lire-update w v f (p ∷ rows) keep = ground (
  arith,
  keep p,
  text_eq_iff p.version w,
  text_eq_iff p.version v,
  text_eq_iff v w,
  text_eq_iff (f p).version w,
  lire-update w v f rows keep,
)

abbrev or_else : Option Proposal → Option Proposal → Option Proposal
or_else none other = other
or_else (some p) other = some p

or_else-none : (o : Option Proposal) → or_else o none ≡ o
or_else-none none = refl
or_else-none (some p) = refl

lire-insert :
    (w : Text) (rows : List Proposal) (p : Proposal)
    → lire w (rows ++ p ∷ []) ≡ or_else (lire w rows) (if text_eq p.version w then some p else none)
unfolding lire select_one
lire-insert w [] p = refl
lire-insert w (q ∷ rows) p = ground (arith, lire-insert w rows p)

same_cell :
    (v w : Text) (rows : List Proposal) (o : Option Proposal)
    → lire v rows ≡ o
    → text_eq v w ≡ true
    → lire w rows ≡ o
same_cell v w rows o h e = ap (λ t. lire t rows) (sym (text_eq_sound v w e)) ∙ h

-- An UPDATE of a version that has a row writes into that version's cell.
updated_cell :
    (w v : Text) (f : Proposal → Proposal) (rows : List Proposal) (p : Proposal)
    → ((q : Proposal) → (f q).version ≡ q.version)
    → lire v rows ≡ some p
    → lire w (update (of_version v) f rows) ≡ (if text_eq v w then some (f p) else lire w rows)
updated_cell w v f rows p keep h = elim (Bool-cases (text_eq v w)) [
  | inl e ↦ rw (lire-update w v f rows keep, same_cell v w rows (some p) h e, e) refl
  | inr e ↦ rw (lire-update w v f rows keep, e) (written_elsewhere w v f (lire w rows) e)
]

-- A cell that a call leaves alone.
kept_cell :
    (w v : Text) (rows : List Proposal) (o : Option Proposal)
    (m : Option Proposal → Option Proposal)
    → lire v rows ≡ o
    → m o ≡ o
    → lire w rows ≡ (if text_eq v w then m (lire w rows) else lire w rows)
kept_cell w v rows o m h k = elim (Bool-cases (text_eq v w)) [
  | inl e ↦ rw (e, same_cell v w rows o h e) (sym k)
  | inr e ↦ rw e refl
]

-- A cell that a call writes.
written_cell :
    (w v : Text) (rows : List Proposal) (p r : Proposal) (m : Option Proposal → Option Proposal)
    → lire v rows ≡ some p
    → m (some p) ≡ some r
    → (if text_eq v w then some r else lire w rows)
      ≡ (if text_eq v w then m (lire w rows) else lire w rows)
written_cell w v rows p r m h k = elim (Bool-cases (text_eq v w)) [
  | inl e ↦ rw (e, same_cell v w rows (some p) h e) (sym k)
  | inr e ↦ rw e refl
]

enregistre_found_refines :
    (w v sha : Text) (ts : ℕ) (rows : List Proposal) (o : Option Proposal)
    → lire v rows ≡ o
    → lire w (enregistre_found v sha ts o rows)
      ≡ (if text_eq v w then on_announce v sha ts (lire w rows) else lire w rows)
enregistre_found_refines w v sha ts rows none h = elim (Bool-cases (text_eq v w)) [
  | inl e ↦ rw (lire-insert w rows (proposed v sha ts), same_cell v w rows none h e, e) refl
  | inr e ↦ rw (lire-insert w rows (proposed v sha ts), e) (or_else-none (lire w rows))
]
enregistre_found_refines w v sha ts rows (some p) h = elim (Bool-cases (text_eq p.sha sha)) [
  | inl s ↦ rw s (kept_cell w v rows (some p) (on_announce v sha ts) h (rw s refl))
  | inr s ↦
      rw (s, updated_cell w v (reopened sha ts) rows p (λ q. refl) h)
        (written_cell w v rows p (reopened sha ts p) (on_announce v sha ts) h (rw s refl))
]

decide_found_refines :
    (w v sha : Text) (state : String) (ts : ℕ) (rows : List Proposal) (o : Option Proposal)
    → lire v rows ≡ o
    → elem state decidables ≡ true
    → lire w (decide_found v state ts (same_sha sha o) rows).0
      ≡ (if text_eq v w then on_choice sha state ts (lire w rows) else lire w rows)
decide_found_refines w v sha state ts rows none h d =
    kept_cell w v rows none (on_choice sha state ts) h refl
decide_found_refines w v sha state ts rows (some p) h d = elim (Bool-cases (text_eq p.sha sha)) [
  | inl s ↦
      rw (s, updated_cell w v (chosen state ts) rows p (λ q. refl) h)
        (written_cell w v rows p (chosen state ts p) (on_choice sha state ts) h (rw (d, s) refl))
  | inr s ↦ rw s (kept_cell w v rows (some p) (on_choice sha state ts) h (rw (d, s) refl))
]

no_choice :
    (sha : Text) (state : String) (ts : ℕ) (o : Option Proposal)
    → elem state decidables ≡ false
    → on_choice sha state ts o ≡ o
no_choice sha state ts none d = refl
no_choice sha state ts (some p) d = rw d refl

decide_refines :
    (w v sha : Text) (state : String) (ts : ℕ) (rows : List Proposal)
    → lire w (decide v sha state ts rows).0
      ≡ (if text_eq v w then on_choice sha state ts (lire w rows) else lire w rows)
unfolding decide etat
decide_refines w v sha state ts rows = elim (Bool-cases (elem state decidables)) [
  | inl d ↦ rw d (decide_found_refines w v sha state ts rows (lire v rows) refl d)
  | inr d ↦ rw d (
      kept_cell w v rows (lire v rows) (on_choice sha state ts) refl
        (no_choice sha state ts (lire v rows) d))
]

revoque_found_refines :
    (w v : Text) (ts : ℕ) (rows : List Proposal) (o : Option Proposal)
    → lire v rows ≡ o
    → lire w (revoque_found v ts o rows).0
      ≡ (if text_eq v w then on_revocation ts (lire w rows) else lire w rows)
revoque_found_refines w v ts rows none h = kept_cell w v rows none (on_revocation ts) h refl
revoque_found_refines w v ts rows (some p) h = elim (Bool-cases (str_eq p.state "declined")) [
  | inl s ↦
      rw (s, updated_cell w v (cleared ts) rows p (λ q. refl) h)
        (written_cell w v rows p (cleared ts p) (on_revocation ts) h (rw s refl))
  | inr s ↦ rw s (kept_cell w v rows (some p) (on_revocation ts) h (rw s refl))
]

-- A call on the table is a step of the machine of its version and none of any other's.
pub lire-perform :
    (w : Text) (call : Call) (rows : List Proposal)
    → lire w (perform call rows) ≡ step w call (lire w rows)
unfolding perform step enregistre revoque
lire-perform w (announce true v sha ts) rows = refl
lire-perform w (announce false v sha ts) rows =
    enregistre_found_refines w v sha ts rows (lire v rows) refl
lire-perform w (choose v sha state ts) rows = decide_refines w v sha state ts rows
lire-perform w (revoke v ts) rows = revoque_found_refines w v ts rows (lire v rows) refl

-- After any calls the row of a version is what its machine makes of them, from the row before.
pub lire-perform_all :
    (w : Text) (calls : List Call) (rows : List Proposal)
    → lire w (perform_all calls rows) ≡ steps w calls (lire w rows)
unfolding perform_all steps
lire-perform_all w [] rows = refl
lire-perform_all w (call ∷ calls) rows =
    lire-perform_all w calls (perform call rows) ∙ ap (steps w calls) (lire-perform w call rows)
