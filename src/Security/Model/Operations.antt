-- ===== src/Security/Model/Operations.antt =====
-- The names of operations.
use velm.Base.{◌≡◌, refl, ap, ◌∙◌, sym, ◌||◌, Bool, true, false, if◌then◌else◌}
use velm.Base.{Text, txt, trim, upper, ◌==◌, trim-upper, trim-trim, upper-upper}
use mathlib.Core.Path.{subst}
use velm.Security.Model.{canonical_operation, normalize_operation}

IsNormal : Text → Type 0
IsNormal s = normalize_operation s ≡ s

literals : IsNormal (txt "C") × IsNormal (txt "R") × IsNormal (txt "U") × IsNormal (txt "D")
unfolding IsNormal normalize_operation canonical_operation txt trim upper ◌==◌
literals = (refl, refl, refl, refl)

normalize_operation_lem : (s : Text) → canonical_operation (trim (upper s)) ≡ normalize_operation s
unfolding normalize_operation
normalize_operation_lem s = refl

key_stable : (s : Text) → trim (upper (trim (upper s))) ≡ trim (upper s)
key_stable s =
    sym (ap trim (trim-upper (upper s)))
    ∙ ap (λ t. trim (trim t)) (upper-upper s)
    ∙ trim-trim (upper s)

pick :
    (b : Bool) (x y : Text) → IsNormal x → (b ≡ false → IsNormal y) → IsNormal (if b then x else y)
pick true x y h k = h
pick false x y h k = k refl

last-IsNormal : (k : Text) → trim (upper k) ≡ k → canonical_operation k ≡ k → IsNormal k
unfolding IsNormal normalize_operation
last-IsNormal k h c = rw h c

canonical-IsNormal : (k : Text) → trim (upper k) ≡ k → IsNormal (canonical_operation k)
unfolding canonical_operation
canonical-IsNormal k h =
    pick (k == txt "C" || k == txt "CREATE" || k == txt "INSERT") _ _ literals.0 λ c.
      pick (k == txt "R" || k == txt "READ" || k == txt "SELECT" || k == txt "VIEW") _ _ literals.1
        λ r.
          pick (k == txt "U" || k == txt "UPDATE" || k == txt "WRITE" || k == txt "EDIT") _ _
            literals.2
            λ u.
              pick (k == txt "D" || k == txt "DELETE" || k == txt "REMOVE") _ k literals.3
                λ d. last-IsNormal k h (rw (c, r, u, d) refl)

-- Naming an operation twice is naming it once, so the callers that normalise before they pass an
-- operation on decide as those that do not.
pub normalize_operation_idempotent :
    (s : Text) → normalize_operation (normalize_operation s) ≡ normalize_operation s
unfolding IsNormal
normalize_operation_idempotent s =
    subst IsNormal (normalize_operation_lem s) (canonical-IsNormal (trim (upper s)) (key_stable s))
