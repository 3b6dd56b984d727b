-- ===== src/Base/Whole.antt =====
-- Whole numbers as floats, for the examples: every law of `FloatLaws` holds of them.
use Prim.Native.Nat.{ℕ, ◌+◌, ◌*◌}
use mathlib.Core.Path.{◌≡◌, sym}
use mathlib.Core.Bool.{true}
use mathlib.Core.Option.{some}
use native.Mathlib.Omega.{arith}
use trust_shield.Base.Tests.{ltb, leb, some_inj}
use trust_shield.Base.Int.{ℤ, pos, ◌≤ℤ◌}
use trust_shield.Base.Float.{FloatOps, FloatLaws}

abbrev pub whole_floats : FloatOps ℕ
whole_floats = record {
  of_ℕ = λ n. n;
  decimal = λ m k. m;
  add = λ a b. a + b;
  mul = λ a b. a * b;
  div = λ a b. a;
  lt = ltb;
  le = leb;
  trunc = λ a. some (pos a);
  round2 = λ a. a;
  format2 = λ a. "0";
}

trunc_grows :
    (a b : ℕ) (y z : ℤ) → leb a b ≡ true → some (pos a) ≡ some y → some (pos b) ≡ some z → y ≤ℤ z
trunc_grows a b y z h e f =
    let u : pos a ≡ y = some_inj e in
    let v : pos b ≡ z = some_inj f in rw (sym u, sym v) (ground arith)

pub whole_laws : FloatLaws whole_floats
whole_laws = record {
  le_refl = λ a. ground arith;
  le_trans = λ a b c h k. ground arith;
  lt-le = λ a b h. ground arith;
  not-lt-le = λ a b h. ground arith;
  le-of_ℕ = λ m n h. ground arith;
  le-add_left = λ a b c h. ground arith;
  le-add_right = λ a b c h. ground arith;
  le-add_nonneg = λ a b h. ground arith;
  le-trunc = trunc_grows;
}
