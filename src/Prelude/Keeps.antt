-- ===== src/Prelude/Keeps.antt =====
-- What a method keeps of the object it changes, whether it returns or raises.
use mathlib.Core.Bool.{Bool, true, false}
use value_stream_simulator.Prelude.Tests.{if◌then◌else◌}
use value_stream_simulator.Prelude.Exec.{Result, ok, raise, Exec, gets, continue, ◌>>=◌}

module _ {ℓ κ} {E S : Type ℓ} (P : S → Type κ) where
  abbrev pub Keeps : {A : Type ℓ} → Exec E S A → Type (ℓ ⊔ κ)
  Keeps m = (s : S) → P s → P (m s).1

  continue-Keeps :
      {A B : Type ℓ} (r : Result E A) (k : A → Exec E S B)
      → ((a : A) → Keeps (k a))
      → Keeps (continue r k)
  continue-Keeps (ok a) k h s p = h a s p
  continue-Keeps (raise e) k h s p = p

  pub bind-Keeps :
      {A B : Type ℓ} (m : Exec E S A) (k : A → Exec E S B)
      → Keeps m
      → ((a : A) → Keeps (k a))
      → Keeps (m >>= k)
  bind-Keeps m k hm hk s p = continue-Keeps (m s).0 k hk (m s).1 (hm s p)

  -- A test that reads the object: what the read says is known where the rest runs.
  pub gets-Keeps :
      {A B : Type ℓ} (f : S → A) (k : A → Exec E S B)
      → ((s : S) → P s → P (k (f s) s).1)
      → Keeps (gets f >>= k)
  gets-Keeps f k h s p = h s p

  pub if-Keeps :
      {A : Type ℓ} (b : Bool) (m n : Exec E S A) → Keeps m → Keeps n → Keeps (if b then m else n)
  if-Keeps true m n hm hn = hm
  if-Keeps false m n hm hn = hn

-- The first method keeps `P`, and from there the rest leads to `Q`.
pub bind_leads {ℓ κ} :
    {E S A B : Type ℓ} (P Q : S → Type κ) (m : Exec E S A) (k : A → Exec E S B)
    → Keeps P m
    → ((s : S) → P s → Q s)
    → ((a : A) (s : S) → P s → Q (k a s).1)
    → (s : S) → P s
    → Q ((m >>= k) s).1
bind_leads {E} {S} {A} {B} P Q m k hm here later s p = go (m s).0 (m s).1 (hm s p)
  where
    go : (r : Result E A) (s' : S) → P s' → Q (continue r k s').1
    go (ok a) s' p' = later a s' p'
    go (raise e) s' p' = here s' p'

-- What the first method leads to from here, the rest keeps.
pub bind_from {ℓ κ} :
    {E S A B : Type ℓ} (P : S → Type κ) (m : Exec E S A) (k : A → Exec E S B) (s : S)
    → P (m s).1
    → ((a : A) → Keeps P (k a))
    → P ((m >>= k) s).1
bind_from {E} {S} {A} {B} P m k s here later = go (m s).0 (m s).1 here
  where
    go : (r : Result E A) (t : S) → P t → P (continue r k t).1
    go (ok a) t p = later a t p
    go (raise e) t p = p

-- What a method returns, if it does.
abbrev pub Returns {ℓ κ} : {E A : Type ℓ} → (A → Type κ) → Result E A → Type κ
Returns Q (ok a) = Q a
Returns Q (raise e) = Unit

pub bind-Returns {ℓ κ} :
    {E S A B : Type ℓ} (Q : B → Type κ) (m : Exec E S A) (k : A → Exec E S B)
    → ((a : A) (s : S) → Returns Q (k a s).0)
    → (s : S) → Returns Q ((m >>= k) s).0
bind-Returns {E} {S} {A} {B} Q m k h s = go (m s).0 (m s).1
  where
    go : (r : Result E A) (t : S) → Returns Q (continue r k t).0
    go (ok a) t = h a t
    go (raise e) t = tt
