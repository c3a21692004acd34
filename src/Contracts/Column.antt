-- ===== src/Contracts/Column.antt =====
-- A text column that is meant to hold an enum's value: `Status(text)` either finds the member or
-- raises `ValueError`.
use codegen_orchestrator.Prelude.{
  String, Bool, true, false, Option, none, some, ◌=ₛ◌, ◌&&◌, leb, ltb,
}
use codegen_orchestrator.Prelude.Int.{ℤ, pos_part, neg_part}

pub data Column {ℓ} (A : Type ℓ) : Type ℓ where
  known : A → Column A
  unknown : String → Column A

-- `==` of two column values, for the members' own test `same`.
abbrev pub column_eq {ℓ} : {A : Type ℓ} → (A → A → Bool) → Column A → Column A → Bool
column_eq same (known a) (known b) = same a b
column_eq same (unknown s) (unknown t) = s =ₛ t
column_eq same _ _ = false

-- A field of a partial update: `exclude_unset` drops it, or it is set, perhaps to `None`.
pub data Patch {ℓ} (A : Type ℓ) : Type ℓ where
  unset : Patch A
  set : Option A → Patch A

-- `setattr` of a nullable column, if the field is there.
abbrev pub patched {ℓ} : {A : Type ℓ} → Patch A → Option A → Option A
patched unset old = old
patched (set new) old = new

-- A column that is not nullable is set to `None`, which the database refuses.
abbrev pub sets_null {ℓ} : {A : Type ℓ} → Patch A → Bool
sets_null (set none) = true
sets_null (set (some _)) = false
sets_null unset = false

-- `setattr` of such a column.
abbrev pub assigned {ℓ} : {A : Type ℓ} → Patch A → A → A
assigned (set (some new)) old = new
assigned (set none) old = old
assigned unset old = old

-- What the column `Integer` holds.
unfoldable pub fits_integer : ℤ → Bool
fits_integer n = leb (neg_part n) 2147483648 && ltb (pos_part n) 2147483648
