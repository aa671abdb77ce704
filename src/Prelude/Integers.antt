-- ===== src/Prelude/Integers.antt =====
-- The integers as an instance of `Number`: arithmetic on them is exact, which no float's is.
use Prim.Native.Nat.{ℕ, zero, suc, ◌+◌, ◌*◌, ◌/◌}
use mathlib.Core.Path.{◌≡◌}
use mathlib.Core.Bool.{Bool, true, ◌&&◌}
use native.Mathlib.Omega.{arith}
use value_stream_simulator.Prelude.Tests.{ltb, leb, ◌==◌}
use value_stream_simulator.Prelude.Number.{Number, IsExact}
use value_stream_simulator.Prelude.Int.{ℤ, pos, negsuc, pos_part, neg_part, sub_ℕ}

abbrev opposite : ℤ → ℤ
opposite a = sub_ℕ (neg_part a) (pos_part a)

abbrev product : ℤ → ℤ → ℤ
product a b =
    sub_ℕ (pos_part a * pos_part b + neg_part a * neg_part b)
      (pos_part a * neg_part b + neg_part a * pos_part b)

-- Towards zero.
abbrev quotient : ℤ → ℤ → ℤ
quotient a b =
    sub_ℕ (pos_part a / pos_part b + neg_part a / neg_part b)
      (pos_part a / neg_part b + neg_part a / pos_part b)

abbrev power : ℤ → ℕ → ℤ
power a zero = pos 1
power a (suc k) = product a (power a k)

abbrev at_most : ℤ → ℤ → Bool
at_most a b = leb (pos_part a + neg_part b) (pos_part b + neg_part a)

abbrev below : ℤ → ℤ → Bool
below a b = ltb (pos_part a + neg_part b) (pos_part b + neg_part a)

abbrev difference : ℤ → ℤ → ℤ
difference a b = sub_ℕ (pos_part a + neg_part b) (neg_part a + pos_part b)

abbrev sum : ℤ → ℤ → ℤ
sum a b = sub_ℕ (pos_part a + pos_part b) (neg_part a + neg_part b)

abbrev pub integers : Number
integers = record {
  Float = ℤ;
  zero = pos 0;
  one = pos 1;
  add = sum;
  sub = difference;
  mul = product;
  div = quotient;
  power = λ a b. power a (pos_part b);
  lt = below;
  le = at_most;
  same = λ a b. (pos_part a == pos_part b) && (neg_part a == neg_part b);
}

add_assoc : (a b c : ℤ) → sum (sum a b) c ≡ sum a (sum b c)
add_assoc (pos a) (pos b) (pos c) = ground arith
add_assoc (pos a) (pos b) (negsuc c) = ground arith
add_assoc (pos a) (negsuc b) (pos c) = ground arith
add_assoc (pos a) (negsuc b) (negsuc c) = ground arith
add_assoc (negsuc a) (pos b) (pos c) = ground arith
add_assoc (negsuc a) (pos b) (negsuc c) = ground arith
add_assoc (negsuc a) (negsuc b) (pos c) = ground arith
add_assoc (negsuc a) (negsuc b) (negsuc c) = ground arith

add_comm : (a b : ℤ) → sum a b ≡ sum b a
add_comm (pos a) (pos b) = ground arith
add_comm (pos a) (negsuc b) = ground arith
add_comm (negsuc a) (pos b) = ground arith
add_comm (negsuc a) (negsuc b) = ground arith

add-zero : (a : ℤ) → sum a (pos 0) ≡ a
add-zero (pos a) = ground arith
add-zero (negsuc a) = ground arith

add-sub : (a b : ℤ) → sum (difference a b) b ≡ a
add-sub (pos a) (pos b) = ground arith
add-sub (pos a) (negsuc b) = ground arith
add-sub (negsuc a) (pos b) = ground arith
add-sub (negsuc a) (negsuc b) = ground arith

transpose : (a b c : ℤ) → at_most a (difference b c) ≡ true → at_most (sum c a) b ≡ true
transpose (pos a) (pos b) (pos c) h = ground (arith, h)
transpose (pos a) (pos b) (negsuc c) h = ground (arith, h)
transpose (pos a) (negsuc b) (pos c) h = ground (arith, h)
transpose (pos a) (negsuc b) (negsuc c) h = ground (arith, h)
transpose (negsuc a) (pos b) (pos c) h = ground (arith, h)
transpose (negsuc a) (pos b) (negsuc c) h = ground (arith, h)
transpose (negsuc a) (negsuc b) (pos c) h = ground (arith, h)
transpose (negsuc a) (negsuc b) (negsuc c) h = ground (arith, h)

at_most_refl : (a : ℤ) → at_most a a ≡ true
at_most_refl a = ground arith

pub integers-IsExact : IsExact integers
integers-IsExact = record {
  add_assoc = add_assoc;
  add_comm = add_comm;
  add-zero = add-zero;
  add-sub = add-sub;
  transpose = transpose;
  le-refl = at_most_refl;
}
