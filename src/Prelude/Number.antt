-- ===== src/Prelude/Number.antt =====
-- Python's float, as far as the program uses it. A record of operations stands for the type, and
-- a second one for what comparison and subtraction promise on numbers that are not nan.
use mathlib.Core.Path.{◌≡◌}
use mathlib.Core.Bool.{Bool, true, not}

pub record Number : Type 1 where
  pub Float : Type 0
  pub zero : Float
  pub one : Float
  pub add : Float → Float → Float
  pub sub : Float → Float → Float
  pub mul : Float → Float → Float
  pub div : Float → Float → Float
  pub power : Float → Float → Float
  pub lt : Float → Float → Bool
  pub le : Float → Float → Bool
  pub same : Float → Float → Bool

-- Finite numbers: they are ordered, and since rounding is monotone, a subtraction keeps the order.
pub record IsOrdered (n : Number) : Type 0 where
  pub lt-not_le : (a b : n.Float) → n.lt a b ≡ not (n.le b a)
  pub le-refl : (a : n.Float) → n.le a a ≡ true
  pub le-trans : (a b c : n.Float) → n.le a b ≡ true → n.le b c ≡ true → n.le a c ≡ true
  pub sub-self : (a : n.Float) → n.sub a a ≡ n.zero
  pub sub-mono : (a b c : n.Float) → n.le a b ≡ true → n.le (n.sub a c) (n.sub b c) ≡ true

-- Numbers whose arithmetic is exact and goes with their order. Floats round, so it holds of them only
-- where nothing is rounded.
pub record IsExact (n : Number) : Type 0 where
  pub add_assoc : (a b c : n.Float) → n.add (n.add a b) c ≡ n.add a (n.add b c)
  pub add_comm : (a b : n.Float) → n.add a b ≡ n.add b a
  pub add-zero : (a : n.Float) → n.add a n.zero ≡ a
  pub add-sub : (a b : n.Float) → n.add (n.sub a b) b ≡ a
  pub transpose : (a b c : n.Float) → n.le a (n.sub b c) ≡ true → n.le (n.add c a) b ≡ true
  pub le-refl : (a : n.Float) → n.le a a ≡ true
