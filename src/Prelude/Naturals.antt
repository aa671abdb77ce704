-- ===== src/Prelude/Naturals.antt =====
-- The native numbers as an instance of `Number`, on which the examples run.
use Prim.Native.Nat.{ℕ, zero, suc, ◌+◌, ◌-◌, ◌*◌, ◌/◌}
use native.Mathlib.Omega.{arith}
use value_stream_simulator.Prelude.Tests.{ltb, leb, ◌==◌}
use value_stream_simulator.Prelude.Number.{Number, IsOrdered}

abbrev power : ℕ → ℕ → ℕ
power a zero = 1
power a (suc b) = a * power a b

abbrev pub naturals : Number
naturals = record {
  Float = ℕ;
  zero = 0;
  one = 1;
  add = λ a b. a + b;
  sub = λ a b. a - b;
  mul = λ a b. a * b;
  div = λ a b. a / b;
  power = power;
  lt = ltb;
  le = leb;
  same = λ a b. a == b;
}

pub naturals-IsOrdered : IsOrdered naturals
naturals-IsOrdered = record {
  lt-not_le = λ a b. ground arith;
  le-refl = λ a. ground arith;
  le-trans = λ a b c h k. ground arith;
  sub-self = λ a. omega arith;
  sub-mono = λ a b c h. ground arith;
}
