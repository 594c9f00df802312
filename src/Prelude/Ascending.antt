-- ===== src/Prelude/Ascending.antt =====
-- Lists of numbers that grow strictly.
use Prim.Native.Nat.{ℕ, ◌<◌}
use mathlib.Core.Path.{◌≡◌, refl}
use mathlib.Core.Bool.{Bool, false}
use mathlib.Core.Option.{Option, none, some}
use mathlib.Core.List.{List, [], ◌∷◌, ◌++◌}
use native.Mathlib.Omega.{arith}
use scientific_workflow.Prelude.Tests.{leb}

abbrev pub IsAscending : List ℕ → Type 0
IsAscending [] = Unit
IsAscending (x ∷ []) = Unit
IsAscending (x ∷ y ∷ xs) = (x < y) × IsAscending (y ∷ xs)

abbrev pub final : List ℕ → Option ℕ
final [] = none
final (x ∷ []) = some x
final (x ∷ y ∷ xs) = final (y ∷ xs)

-- The test by which a program refuses what does not come after the last.
abbrev pub is_late : ℕ → Option ℕ → Bool
is_late n none = false
is_late n (some last) = leb n last

pub final-append : (xs : List ℕ) (n : ℕ) → final (xs ++ n ∷ []) ≡ some n
final-append [] n = refl
final-append (x ∷ []) n = refl
final-append (x ∷ y ∷ xs) n = final-append (y ∷ xs) n

pub IsAscending-append :
    (xs : List ℕ) (n : ℕ)
    → IsAscending xs
    → is_late n (final xs) ≡ false
    → IsAscending (xs ++ n ∷ [])
IsAscending-append [] n h e = tt
IsAscending-append (x ∷ []) n h e = (ground arith, tt)
IsAscending-append (x ∷ y ∷ []) n h e = (h.0, (ground arith, tt))
IsAscending-append (x ∷ y ∷ z ∷ xs) n h e = (h.0, IsAscending-append (y ∷ z ∷ xs) n h.1 e)
