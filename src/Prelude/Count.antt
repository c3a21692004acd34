-- ===== src/Prelude/Count.antt =====
-- How many rows of a table pass a test.
use Prim.Native.Nat.{ℕ, ◌+◌, ◌≤◌}
use Prim.Native.String.{String}
use native.Mathlib.Omega.{arith}
use mathlib.Core.Path.{◌≡◌}
use mathlib.Core.Logic.{inl, inr}
use mathlib.Core.Bool.{Bool, true, false, ◌&&◌, not}
use mathlib.Core.Option.{some}
use mathlib.Core.List.{List, [], ◌∷◌, ◌++◌}
use codegen_orchestrator.Prelude.Tests.{◌=ₛ◌, Bool-cases}
use codegen_orchestrator.Prelude.Lists.{length, filter}
use codegen_orchestrator.Prelude.Table

abbrev pub one : Bool → ℕ
one true = 1
one false = 0

module _ {ℓ} {Row : Type ℓ} where
  abbrev pub count : (Row → Bool) → List Row → ℕ
  count test t = length (filter test t)

  module _ (test : Row → Bool) where
    pub count-cons : (r : Row) (t : List Row) → count test (r ∷ t) ≡ one (test r) + count test t
    count-cons r t = elim (Bool-cases (test r)) [ inl y ↦ ground arith | inr n ↦ ground arith ]

    pub count-append :
        (r : Row) (t : List Row) → count test (t ++ (r ∷ [])) ≡ count test t + one (test r)
    count-append r [] = omega (arith, count-cons r [])
    count-append r (q ∷ t) =
        omega (arith, count-append r t, count-cons q t, count-cons q (t ++ (r ∷ [])))

    -- A write adds what the new row counts for, and takes away what the old one did.
    pub count-save :
        (key : Row → String) (r : Row) (t : List Row) (old : Row)
        → Table.find key (key r) t ≡ some old
        → count test (Table.save key r t) + one (test old) ≡ count test t + one (test r)
    unfolding Table.find Table.save
    count-save key r [] old e = absurd (ground arith)
    count-save key r (q ∷ t) old e = elim (Bool-cases (key q =ₛ key r)) [
      | inl y ↦ ground (arith, count-cons q t, count-cons r t)
      | inr n ↦
          ground (arith, count-save key r t old, count-cons q t, count-cons q (Table.save key r t))
    ]

    -- Every row that passes is one of those that another test rejects, or one of those it accepts.
    pub count-split :
        (other : Row → Bool) (t : List Row)
        → count test t ≤ count (λ r. test r && not (other r)) t + count other t
    count-split other [] = omega arith
    count-split other (r ∷ t) = ground (arith, count-split other t)
