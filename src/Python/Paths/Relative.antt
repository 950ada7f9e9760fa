-- ===== src/Python/Paths/Relative.antt =====
-- `relative_to` and `/` undo one another.
use file_monitor.Prelude.{◌≡◌, refl, false, some, List, [], ◌∷◌, ◌++◌, arith}
use file_monitor.Python.Text.{Text}
use file_monitor.Python.Equality.{nat_eq, list_eq, eq_refl, list_beq_iff}
use file_monitor.Python.Paths.{FilePath, is_absolute, join, strip, relative_to}

strip-eq-some :
    (other parts rest : List Text) → strip other parts ≡ some rest → parts ≡ other ++ rest
unfolding strip
strip-eq-some [] parts rest h = cc
strip-eq-some (o ∷ other) [] rest h = absurd (cc)
strip-eq-some (o ∷ other) (p ∷ parts) rest h =
    ground (arith, list_beq_iff o p, strip-eq-some other parts rest)

strip-append : (other rest : List Text) → strip other (other ++ rest) ≡ some rest
unfolding strip
strip-append [] rest = refl
strip-append (o ∷ other) rest = rw (eq_refl o) (strip-append other rest)

-- A path is `root / r` for the relative path `r` that `relative_to` returns.
pub relative_to-eq-some :
    (p root r : FilePath)
    → relative_to p root ≡ some r
    → (is_absolute r ≡ false) × (join root r ≡ p)
unfolding relative_to is_absolute join
relative_to-eq-some p root r h =
    ground (arith, list_beq_iff p.root root.root, strip-eq-some root.parts p.parts r.parts)

-- Every relative path below a root is found again.
pub relative_to-join :
    (root r : FilePath) → is_absolute r ≡ false → relative_to (join root r) root ≡ some r
unfolding relative_to is_absolute join
relative_to-join root r h = ground (arith, eq_refl root.root, strip-append root.parts r.parts)

pub parts-relative_to :
    (p root r : FilePath)
    → relative_to p root ≡ some r
    → (p.parts ≡ root.parts ++ r.parts) × (r.root ≡ [])
unfolding relative_to
parts-relative_to p root r h = ground (arith, strip-eq-some root.parts p.parts r.parts)
