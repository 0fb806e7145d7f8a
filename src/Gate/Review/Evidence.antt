-- ===== src/Gate/Review/Evidence.antt =====
-- `gate_blocking` of src/forgemaster/gate/review.py and the guard of the evidence.
use forgemaster.Prelude.{
  ℕ, String, ◌≡◌, refl, Bool, ◌&&◌, Option, none, some, List, [], ◌∷◌, arith, Bool-cases, inl, inr,
  any, length, select, ltb, ◌∙◌, true, false, not,
}
use forgemaster.Prelude.Text.{Text, text_eq, contains}
use forgemaster.Gate.Review.{
  Finding, is_red, Added, empty_text, lookup_line, normalize, extract_citation, check_citation,
  is_kept, reject_reason, partition_findings, added_texts, build_verdict, gate_blocking, counts_of,
}

some_red :
    (fs : List Finding)
    → ltb 0 (length (select (λ f. is_red f.severity) fs)) ≡ any (λ f. is_red f.severity) fs
unfolding select
some_red [] = refl
some_red (f ∷ fs) = ground (arith, some_red fs)

module _ (is_space : ℕ → Bool) where
  -- The citation stands, spaces made equal, in a text that the diff adds to the file.
  abbrev pub is_quoted : Added → Text → Option Text → Bool
  is_quoted added file none = false
  is_quoted added file (some quote) =
      any (λ e. text_eq e.0 file && contains (normalize is_space quote) e.1) added

  -- The finding names a file and a line, and its citation is quoted from that file.
  abbrev pub is_evidenced : Added → Finding → Bool
  is_evidenced added f =
      not (empty_text f.file)
      && (not (lookup_line f.line) && is_quoted added f.file (extract_citation is_space f.evidence))

  quoted_file :
      (file needle : Text) (added : Added)
      → any (λ e. text_eq e.0 file && contains needle e.1) added ≡ true
      → any (λ e. text_eq e.0 file) added ≡ true
  quoted_file file needle [] h = h
  quoted_file file needle (e ∷ es) h = ground (arith, quoted_file file needle es)

  check_citation_kept :
      (file : Text) (added : Added) (quote : Option Text)
      → is_kept is_space (check_citation is_space file added quote) ≡ is_quoted added file quote
  check_citation_kept file added none = refl
  check_citation_kept file added (some quote) =
      ground (arith, quoted_file file (normalize is_space quote) added)

  reject_reason_kept :
      (added : Added) (f : Finding)
      → is_kept is_space (reject_reason is_space added f) ≡ is_evidenced added f
  unfolding reject_reason
  reject_reason_kept added f =
      ground (arith, check_citation_kept f.file added (extract_citation is_space f.evidence))

  kept_red :
      (added : Added) (fs : List Finding)
      → any (λ f. is_red f.severity) (partition_findings is_space added fs).0
        ≡ any (λ f. is_evidenced added f && is_red f.severity) fs
  unfolding partition_findings
  kept_red added [] = refl
  kept_red added (f ∷ fs) = elim (Bool-cases (is_evidenced added f)) [
    | inl cited ↦ rw (reject_reason_kept added f, cited, kept_red added fs) refl
    | inr bare ↦ rw (reject_reason_kept added f, bare, kept_red added fs) refl
  ]

  -- The verdict of a review blocks the gate exactly when some red finding names a file and a line and
  -- cites, with spaces made equal, a piece of a text that the code reads as added to that file: a red
  -- without its evidence blocks nothing.
  pub gate_blocking-build_verdict :
      (sha : Option String) (lines : List Text) (findings : List Finding)
      → gate_blocking is_space (some (build_verdict is_space sha (some lines) findings))
        ≡ any (λ f. is_evidenced (added_texts is_space none lines) f && is_red f.severity) findings
  unfolding gate_blocking build_verdict counts_of
  gate_blocking-build_verdict sha lines findings =
      let added = added_texts is_space none lines in
      some_red (partition_findings is_space added findings).0 ∙ kept_red added findings
