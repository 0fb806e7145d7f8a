-- ===== src/Gate/Toolchain/Triggers.antt =====
-- `applicable_triggers` of src/forgemaster/gate/toolchain.py and the source files of a diff.
use forgemaster.Prelude.{
  ◌≡◌, true, false, not, ◌&&◌, ◌||◌, List, [], ◌∷◌, ◌++◌, arith, any, all, All,
}
use forgemaster.Prelude.Text.{Text}
use forgemaster.Gate.Statuses.{only_if}
use forgemaster.Gate.Toolchain.{
  in_front, is_node, is_py, is_doc, is_tier0_source, touches_node_backend, touches_py,
  touches_undeclared_source, Group, front, backend_node, backend, declared, applicable_triggers,
  has_reviewable_code,
}

-- No group is triggered by a file.
abbrev Quiet : Text → Type 0
Quiet f =
    (in_front f ≡ false)
    × ((is_node f && not (in_front f)) ≡ false)
    × (is_py f ≡ false)
    × ((is_tier0_source f && not (in_front f || (is_node f || is_py f))) ≡ false)

quiet_files :
    (files : List Text)
    → any in_front files ≡ false
    → any (λ f. is_node f && not (in_front f)) files ≡ false
    → any is_py files ≡ false
    → any (λ f. is_tier0_source f && not (in_front f || (is_node f || is_py f))) files ≡ false
    → All (λ f. is_tier0_source f ≡ false) files
quiet_files [] a b c d = tt
quiet_files (f ∷ fs) a b c d =
    (ground arith, quiet_files fs (ground arith) (ground arith) (ground arith) (ground arith))

-- A diff that triggers no group has no source file, whatever its languages: the native Tier-0 is out
-- of play only for prose, locks and assets.
pub applicable_triggers_nil :
    (files : List Text)
    → applicable_triggers files ≡ []
    → All (λ f. is_tier0_source f ≡ false) files
unfolding applicable_triggers
applicable_triggers_nil files h =
    quiet_files files (ground arith) (ground arith) (ground arith) (ground arith)

-- The other way round fails: any file under web/ triggers the front group, prose and assets too.
pub applicable_triggers-front :
    (f : Text) (files : List Text)
    → in_front f ≡ true
    → (rest : List Group) × (applicable_triggers (f ∷ files) ≡ front ∷ rest)
unfolding applicable_triggers
applicable_triggers-front f files h = (
  only_if (touches_node_backend (f ∷ files)) backend_node
      ++ (only_if (touches_py (f ∷ files)) backend
          ++ only_if (touches_undeclared_source (f ∷ files)) declared),
  rw h,
)

all_doc_not_source :
    (files : List Text) → all is_doc files ≡ true → All (λ f. is_tier0_source f ≡ false) files
unfolding is_tier0_source
all_doc_not_source [] h = tt
all_doc_not_source (f ∷ fs) h = (ground arith, all_doc_not_source fs (ground arith))

-- A diff without code to review has no source for the toolchain either.
pub has_reviewable_code-false :
    (files : List Text)
    → has_reviewable_code files ≡ false
    → All (λ f. is_tier0_source f ≡ false) files
unfolding has_reviewable_code
has_reviewable_code-false [] h = tt
has_reviewable_code-false (f ∷ fs) h = all_doc_not_source (f ∷ fs) (ground arith)
