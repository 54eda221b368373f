-- ===== src/Tests.antt =====
-- Concrete parameters, and each property at a concrete input.
mod Codec
mod Wires
mod Timers
mod Files
mod Nulls
mod StopWait
mod Window
mod Selective
mod Transfer
use udp_arq_lab.Prelude.{
  ℕ, ◌+◌, ◌-◌, ◌*◌, ◌/◌, ◌%◌, ◌≡◌, Bool, true, false, arith, ltb, List, [], ◌∷◌,
}
use udp_arq_lab.Prelude.Float.{Float, FloatOrder}

-- Numbers in units of 1/10000. A difference below 0 is 0.
instance abbrev pub units : Float ℕ
units = record {
  lt = ltb;
  add = λ a b. a + b;
  sub = λ a b. a - b;
  abs = λ a. a;
  mul = λ a b. a * b / 10000;
  ratio = λ p q. p * 10000 / q;
  trunc = λ a. a / 10000;
}

pub units_order : FloatOrder ℕ
units_order = record {
  lt_asymm = λ a b h. ground arith;
  lt-le_trans = λ a b c h k. ground arith;
  le_double = λ a h. ground arith;
}

-- A generator: the state counts up.
abbrev pub draws : ℕ → ℕ × ℕ
draws s = (s * 7919 % 10000, s + 1)
