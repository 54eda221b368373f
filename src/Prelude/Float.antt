-- ===== src/Prelude/Float.antt =====
-- Python's `float` as the program uses it. The operations are a parameter of the model.
use Prim.Native.Nat.{ℕ}
use mathlib.Core.Path.{◌≡◌}
use mathlib.Core.Bool.{Bool, true, false, not, ◌&&◌}
use native.Mathlib.Omega.{arith}
use udp_arq_lab.Prelude.Tests.{if◌then◌else◌}

-- `ratio p q` is the literal p / q; `trunc` is `int()` on a float that is not negative.
pub record Float (T : Type 0) : Type 0 where
  pub lt : T → T → Bool
  pub add : T → T → T
  pub sub : T → T → T
  pub abs : T → T
  pub mul : T → T → T
  pub ratio : ℕ → ℕ → T
  pub trunc : T → ℕ

module _ {T : Type 0} ⦃f : Float T⦄ where
  -- max(a, b) and min(a, b): Python keeps the first of two that compare equal.
  abbrev pub max_f : T → T → T
  max_f a b = if f.lt a b then b else a

  abbrev pub min_f : T → T → T
  min_f a b = if f.lt b a then b else a

  -- a <= b and a == b
  abbrev pub le_f : T → T → Bool
  le_f a b = not (f.lt b a)

  abbrev pub eq_f : T → T → Bool
  eq_f a b = le_f a b && le_f b a

  abbrev pub zero_f : T
  zero_f = f.ratio 0 1

-- What is used of the order: it is that of IEEE 754 on values that are not NaN.
pub record FloatOrder (T : Type 0) ⦃f : Float T⦄ : Type 0 where
  pub lt_asymm : (a b : T) → f.lt a b ≡ true → f.lt b a ≡ false
  pub lt-le_trans : (a b c : T) → f.lt a b ≡ true → f.lt c b ≡ false → f.lt a c ≡ true
  -- 2 * a is not below a, unless a is negative.
  pub le_double : (a : T) → f.lt a (f.ratio 0 1) ≡ false → f.lt (f.mul a (f.ratio 2 1)) a ≡ false

module _ {T : Type 0} ⦃f : Float T⦄ (o : FloatOrder T) where
  pub lt_irrefl : (a : T) → f.lt a a ≡ false
  lt_irrefl a = ground (arith, o.lt_asymm a a)

  pub le_f_trans : (a b c : T) → f.lt b a ≡ false → f.lt c b ≡ false → f.lt c a ≡ false
  le_f_trans a b c h k = ground (arith, o.lt-le_trans c a b)
