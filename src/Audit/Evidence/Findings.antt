-- ===== src/Audit/Evidence/Findings.antt =====
-- Lists of findings without an error.
use obsign.Prelude.{◌≡◌, refl, true, List, [], ◌∷◌, ◌++◌, arith}
use obsign.Audit.Evidence.{Finding, is_valid}

pub is_valid-append :
    (fs gs : List Finding)
    → is_valid (fs ++ gs) ≡ true
    → (is_valid fs ≡ true) × (is_valid gs ≡ true)
unfolding is_valid
is_valid-append [] gs h = (refl, h)
is_valid-append (f ∷ fs) gs h =
    let (a, b) = is_valid-append fs gs (ground (arith, h)) in (ground (arith, h, a), b)
