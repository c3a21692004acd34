-- ===== src/Prelude/Texts.antt =====
-- Prefixes of texts, and membership in a list of texts.
use Prim.Native.String.{String, ◌++◌}
use mathlib.Core.Path.{◌≡◌, sym, ◌∙◌, ap}
use mathlib.Core.Logic.{◌⊎◌, inl, inr}
use mathlib.Core.Bool.{Bool, true, false, ◌||◌, not}
use mathlib.Core.List.{List, [], ◌∷◌}
use native.Mathlib.Omega.{arith}
use text.Mathlib.Text.{starts_with}
use text.Mathlib.TextBridge.{IsPrefix}
use text.Mathlib.TextEquality.{eq_iff, starts_with_iff}
use text.Mathlib.TextPositions.{starts_with_of_prefix}
use text.Mathlib.TextLemmas.{
  nil-append, append-nil, cons-append, append_assoc, head-eq_of_cons-eq, tail-eq_of_cons-eq,
}
use codegen_orchestrator.Prelude.Tests.{◌=ₛ◌, Bool-cases}
use codegen_orchestrator.Prelude.Lists.{any, all}

-- `text in {…}`
abbrev pub member : String → List String → Bool
member text = any (λ s. text =ₛ s)

pub member-all :
    (test : String → Bool) (a : String) (l : List String)
    → member a l ≡ true
    → all test l ≡ true
    → test a ≡ true
member-all test a [] h k = absurd (ground arith)
member-all test a (s ∷ l) h k = elim (Bool-cases (a =ₛ s)) [
  | inl y ↦ let same : a ≡ s = ground (arith, eq_iff a s) in ground (arith, same)
  | inr n ↦ member-all test a l (ground arith) (ground arith)
]

pub starts_with_trans :
    (a s t : String) → starts_with a s ≡ true → starts_with s t ≡ true → starts_with a t ≡ true
starts_with_trans a s t h k =
    let (u, p) = (starts_with_iff a s).0 h in
    let (v, q) = (starts_with_iff s t).0 k in
    starts_with_of_prefix t a (v ++ u, sym (append_assoc t v u) ∙ ap (λ x. x ++ u) q ∙ p)

pub starts_with_refl : (a : String) → starts_with a a ≡ true
starts_with_refl a = starts_with_of_prefix a a (String.[], append-nil a)

prefix_compare : (s t u v : String) → s ++ u ≡ t ++ v → IsPrefix s t ⊎ IsPrefix t s
prefix_compare String.[] t u v e = inl (t, nil-append t)
prefix_compare (String.◌∷◌ c s) String.[] u v e = inr (String.◌∷◌ c s, nil-append (String.◌∷◌ c s))
prefix_compare (String.◌∷◌ c s) (String.◌∷◌ d t) u v e =
    let f = sym (cons-append c s u) ∙ e ∙ cons-append d t v in
    elim (prefix_compare s t u v (tail-eq_of_cons-eq f)) [
      | inl (x, p) ↦ inl (
        x,
        cons-append c s x
            ∙ ap (λ y. String.◌∷◌ c y) p
            ∙ ap (λ b. String.◌∷◌ b t) (head-eq_of_cons-eq f),
      )
      | inr (x, p) ↦ inr (
        x,
        cons-append d t x
            ∙ ap (λ y. String.◌∷◌ d y) p
            ∙ ap (λ b. String.◌∷◌ b s) (sym (head-eq_of_cons-eq f)),
      )
    ]

-- Neither text is the start of the other.
abbrev pub apart : String → String → Bool
apart s t = not (starts_with s t || starts_with t s)

-- A text does not start with two texts that differ somewhere.
pub starts_with-apart :
    (a s t : String) → starts_with a s ≡ true → apart s t ≡ true → starts_with a t ≡ false
starts_with-apart a s t h k = elim (Bool-cases (starts_with a t)) [
  | inr n ↦ n
  | inl y ↦
      let (u, p) = (starts_with_iff a s).0 h in
      let (v, q) = (starts_with_iff a t).0 y in
      elim (prefix_compare s t u v (p ∙ sym q)) [
        | inl w ↦ absurd (ground (arith, starts_with_of_prefix s t w))
        | inr w ↦ absurd (ground (arith, starts_with_of_prefix t s w))
      ]
]
