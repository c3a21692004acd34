-- ===== src/Prelude/Table.antt =====
-- A database table as the list of its rows, read and written by primary key.
use mathlib.Core.Path.{◌≡◌, refl, subst, sym}
use mathlib.Core.Option.{Option, none, some}
use mathlib.Core.List.{List, [], ◌∷◌, ◌++◌}
use Prim.Native.String.{String}
use native.Mathlib.Omega.{arith}
use text.Mathlib.TextEquality.{eq_iff}
use codegen_orchestrator.Prelude.Tests.{◌=ₛ◌, if◌then◌else◌, Bool-cases}
use codegen_orchestrator.Prelude.Lists.{All}
use mathlib.Core.Logic.{inl, inr}

module _ {ℓ} {Row : Type ℓ} (key : Row → String) where
  -- `select(Row).where(Row.id == k)` and `db.get(Row, k)`
  unfoldable pub find : String → List Row → Option Row
  find k [] = none
  find k (r ∷ t) = if key r =ₛ k then some r else find k t

  -- What a flush writes for a row that was loaded and changed in place.
  unfoldable pub save : Row → List Row → List Row
  save r [] = []
  save r (q ∷ t) = if key q =ₛ key r then r ∷ t else q ∷ save r t

  pub key-find : (k : String) (t : List Row) (r : Row) → find k t ≡ some r → key r ≡ k
  unfolding find
  key-find k [] r h = ground arith
  key-find k (q ∷ t) r h = ground (arith, eq_iff (key q) k, key-find k t r)

  -- Reading after a write: the written row under its key, and every other row as before.
  pub find-save :
      (r : Row) (k : String) (t : List Row)
      → find k (save r t)
        ≡ (if key r =ₛ k then elim (find k t) [ none ↦ none | some _ ↦ some r ] else find k t)
  unfolding find save
  find-save r k [] = ground arith
  find-save r k (q ∷ t) =
      ground (arith, find-save r k t, eq_iff (key q) (key r), eq_iff (key q) k, eq_iff (key r) k)

  pub find-append :
      (r : Row) (k : String) (t : List Row)
      → find k (t ++ (r ∷ []))
        ≡ elim (find k t) [ none ↦ if key r =ₛ k then some r else none | some q ↦ some q ]
  unfolding find
  find-append r k [] = ground arith
  find-append r k (q ∷ t) = ground (arith, find-append r k t, eq_iff (key q) k)

  -- The last write of a row wins.
  pub save-save : (r q : Row) (t : List Row) → key q ≡ key r → save r (save q t) ≡ save r t
  unfolding save
  save-save r q [] h = refl
  save-save r q (x ∷ t) h = ground (
    arith,
    save-save r q t,
    eq_iff (key x) (key r),
    eq_iff (key x) (key q),
    eq_iff (key q) (key r),
  )

  -- Writing a row as it is stored changes nothing.
  pub save-find : (r : Row) (t : List Row) → find (key r) t ≡ some r → save r t ≡ t
  unfolding find save
  save-find r [] e = refl
  save-find r (q ∷ t) e = elim (Bool-cases (key q =ₛ key r)) [
    | inl y ↦ let same : q ≡ r = ground arith in ground (arith, same)
    | inr n ↦ ground (arith, save-find r t)
  ]

  -- A predicate of every row survives a write and an insertion that satisfy it.
  module _ {κ} (P : Row → Type κ) where
    pub find-All : (k : String) (t : List Row) (r : Row) → find k t ≡ some r → All P t → P r
    unfolding find
    find-All k [] r e h = absurd (ground arith)
    find-All k (q ∷ t) r e (p, ps) = elim (Bool-cases (key q =ₛ k)) [
      | inl y ↦ let same : q ≡ r = ground arith in subst P same p
      | inr n ↦ find-All k t r (ground arith) ps
    ]

    pub All-save : (r : Row) (t : List Row) → P r → All P t → All P (save r t)
    unfolding save
    All-save r [] p h = tt
    All-save r (q ∷ t) p (x, xs) = elim (Bool-cases (key q =ₛ key r)) [
      | inl y ↦
          let written : save r (q ∷ t) ≡ r ∷ t = ground arith in subst (All P) (sym written) (p, xs)
      | inr n ↦
          let kept : save r (q ∷ t) ≡ q ∷ save r t = ground arith in
          subst (All P) (sym kept) (x, All-save r t p xs)
    ]

    pub All-append : (r : Row) (t : List Row) → P r → All P t → All P (t ++ (r ∷ []))
    All-append r [] p h = (p, tt)
    All-append r (q ∷ t) p (x, xs) = (x, All-append r t p xs)
