-- ===== src/Examples/Review.antt =====
-- A diff of one file, with a red finding that cites it, one that does not, and a worktree that git
-- refuses.
use forgemaster.Prelude.{
  ℕ, ◌≡◌, refl, Bool, true, false, ◌&&◌, ◌||◌, ◌==◌, none, some, List, [], ◌∷◌, any, select,
  select_one,
}
use forgemaster.Prelude.Text.{Text, codes}
use forgemaster.Gate.Review.{
  Finding, red, at, is_red, added_texts, normalize, unwrap_citation, extract_citation,
  reject_reason, partition_findings, build_verdict, gate_blocking, counts_of,
}
use forgemaster.Gate.Review.Evidence.{is_evidenced, gate_blocking-build_verdict}
use forgemaster.Roadmap.Rows.{resolve_feature, get_project, split_ref}
use forgemaster.Dispatch.Ports.{Stamp, Reservation}
use forgemaster.Dispatch.Worktree.{Checkout, Tables, reserve}
use forgemaster.Dispatch.Worktree.Atomic.{is_reserved}
use forgemaster.Examples.Roadmap.{db}

abbrev blank : ℕ → Bool
blank c = c == b' ' || c == 9

abbrev diff : List Text
diff = codes "+++ b/app.py" ∷ codes "+    return  a - b" ∷ []

abbrev cited : Finding
cited = record {
  severity = red;
  file = codes "app.py";
  line = at (codes "12");
  evidence = codes "app.py:12 — `return a - b`";
  claim = "subtracts";
}

abbrev bare : Finding
bare = record cited { evidence = codes "app.py:12 — return a + b" }

blocks :
    gate_blocking blank (some (build_verdict blank (some "c0ffee") (some diff) (cited ∷ []))) ≡ true
unfolding gate_blocking build_verdict partition_findings reject_reason extract_citation
    unwrap_citation normalize added_texts counts_of select
blocks = refl

lets_through :
    gate_blocking blank (some (build_verdict blank (some "c0ffee") (some diff) (bare ∷ []))) ≡ false
unfolding gate_blocking build_verdict partition_findings reject_reason extract_citation
    unwrap_citation normalize added_texts counts_of select
lets_through = refl

gate_blocking-build_verdict_example :
    gate_blocking blank (some (build_verdict blank (some "c0ffee") (some diff) (cited ∷ bare ∷ [])))
    ≡ any
        (λ f. is_evidenced blank (added_texts blank none diff) f && is_red f.severity)
        (cited ∷ bare ∷ [])
gate_blocking-build_verdict_example =
    gate_blocking-build_verdict blank (some "c0ffee") diff (cited ∷ bare ∷ [])

abbrev conflict : Checkout
conflict = record {
  path = "/srv/demo/worktrees/api";
  exists = true;
  dev_is_ancestor = false;
  add_raises = false;
  rebase_raises = true;
}

abbrev stamp : Stamp
stamp = record { new_id = "r2"; now = "2026-07-05" }

abbrev quiet : ℕ → List Reservation → List Reservation
quiet left rows = rows

abbrev tables : Tables
tables = record { store = db; reservations = [] }

refused : is_reserved (reserve none stamp quiet "demo" "api" conflict tables).0 ≡ false
unfolding reserve resolve_feature get_project split_ref select_one
refused = refl
