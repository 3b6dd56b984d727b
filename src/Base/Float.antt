-- ===== src/Base/Float.antt =====
-- Python's floats are a parameter: a type with the operations that the program uses, and the laws of
-- IEEE 754 on values that are not NaN that its theorems rely on.
use Prim.Native.Nat.{ℕ, ◌≤◌}
use mathlib.Core.Path.{◌≡◌}
use mathlib.Core.Bool.{Bool, true, false}
use mathlib.Core.Option.{Option, some}
use Prim.Native.String.{String}
use trust_shield.Base.Tests.{if◌then◌else◌}
use trust_shield.Base.Int.{ℤ, ◌≤ℤ◌}

pub record FloatOps (F : Type 0) : Type 0 where
  -- an integer as a float
  pub of_ℕ : ℕ → F
  -- the literal `m / 10 ^ k`
  pub decimal : ℕ → ℕ → F
  pub add : F → F → F
  pub mul : F → F → F
  pub div : F → F → F
  -- `a < b`, and `a <= b`
  pub lt : F → F → Bool
  pub le : F → F → Bool
  -- `int(x)`, which raises for infinities and NaN
  pub trunc : F → Option ℤ
  -- `round(x, 2)`, and the format `.2f`
  pub round2 : F → F
  pub format2 : F → String

module _ {F : Type 0} (ops : FloatOps F) where
  -- `max(a, b)` and `min(a, b)`, which keep `a` unless `b` is greater or less
  abbrev pub fmax : F → F → F
  fmax a b = if ops.lt a b then b else a

  abbrev pub fmin : F → F → F
  fmin a b = if ops.lt b a then b else a

  pub record FloatLaws : Type 0 where
    pub le_refl : (a : F) → ops.le a a ≡ true
    pub le_trans : (a b c : F) → ops.le a b ≡ true → ops.le b c ≡ true → ops.le a c ≡ true
    pub lt-le : (a b : F) → ops.lt a b ≡ true → ops.le a b ≡ true
    pub not-lt-le : (a b : F) → ops.lt a b ≡ false → ops.le b a ≡ true
    pub le-of_ℕ : (m n : ℕ) → m ≤ n → ops.le (ops.of_ℕ m) (ops.of_ℕ n) ≡ true
    pub le-add_left : (a b c : F) → ops.le a b ≡ true → ops.le (ops.add c a) (ops.add c b) ≡ true
    pub le-add_right : (a b c : F) → ops.le a b ≡ true → ops.le (ops.add a c) (ops.add b c) ≡ true
    pub le-add_nonneg : (a b : F) → ops.le (ops.of_ℕ 0) b ≡ true → ops.le a (ops.add a b) ≡ true
    pub le-trunc :
        (a b : F) (y z : ℤ)
        → ops.le a b ≡ true
        → ops.trunc a ≡ some y
        → ops.trunc b ≡ some z
        → y ≤ℤ z
