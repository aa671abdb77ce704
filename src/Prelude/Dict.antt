-- ===== src/Prelude/Dict.antt =====
-- Python's `dict` as an association list in insertion order. Identifiers (`UUID`) and digests are
-- numbers here: the program only ever tests them for equality.
use value_stream_simulator.Prelude.Tests.{◌==◌, ==_refl, Bool-cases, if◌then◌else◌}
use value_stream_simulator.Prelude.Lists.{length, All, sum_of}
use Prim.Native.Nat.{ℕ, ◌+◌, ◌≤◌}
use mathlib.Core.Path.{◌≡◌, refl, ap, subst}
use mathlib.Core.Logic.{inl, inr}
use mathlib.Core.Bool.{Bool, true, false}
use mathlib.Core.Option.{Option, none, some, some-injective, none-ne-some}
use mathlib.Core.List.{List, [], ◌∷◌, ◌++◌}
use native.Mathlib.Omega.{arith}

abbrev pub Dict {ℓ} : Type ℓ → Type ℓ
Dict V = List (ℕ × V)

module _ {ℓ} {V : Type ℓ} where
  -- d.get(k)
  unfoldable pub lookup : Dict V → ℕ → Option V
  lookup [] k = none
  lookup ((j, v) ∷ d) k = if j == k then some v else lookup d k

  -- k in d
  abbrev pub has_key : Dict V → ℕ → Bool
  has_key d k = elim (lookup d k) [ none ↦ false | some _ ↦ true ]

  -- d[k] = v: an existing key keeps its place, a new one goes to the end.
  unfoldable pub put : Dict V → ℕ → V → Dict V
  put [] k v = (k, v) ∷ []
  put ((j, w) ∷ d) k v = if j == k then (j, v) ∷ d else (j, w) ∷ put d k v

  -- del d[k]
  unfoldable pub remove : ℕ → Dict V → Dict V
  remove k [] = []
  remove k ((j, v) ∷ d) = let rest = remove k d in if j == k then rest else (j, v) ∷ rest

  -- {k: v for k, v in d.items() if p(v)}
  unfoldable pub keep : (V → Bool) → Dict V → Dict V
  keep p [] = []
  keep p ((j, v) ∷ d) = let rest = keep p d in if p v then (j, v) ∷ rest else rest

  -- d.values()
  unfoldable pub values : Dict V → List V
  values [] = []
  values ((j, v) ∷ d) = v ∷ values d

module _ {ℓ} {V : Type ℓ} where
  pub lookup-put :
      (d : Dict V) (k j : ℕ) (v : V)
      → lookup (put d k v) j ≡ (if k == j then some v else lookup d j)
  unfolding lookup put
  lookup-put [] k j v = refl
  lookup-put ((i, w) ∷ d) k j v = ground (arith, lookup-put d k j v)

  pub lookup-put_self : (d : Dict V) (k : ℕ) (v : V) → lookup (put d k v) k ≡ some v
  lookup-put_self d k v = ground (arith, lookup-put d k k v)

  pub sum_of-put :
      (f : V → ℕ) (d : Dict V) (k : ℕ) (v : V) {w : V}
      → lookup d k ≡ some w
      → sum_of f (values (put d k v)) + f w ≡ sum_of f (values d) + f v
  unfolding lookup put values
  sum_of-put f [] k v h = cc
  sum_of-put f ((j, x) ∷ d) k v h = elim (Bool-cases (j == k)) [
    | inl same ↦ rw same (omega (arith, ap f (some-injective _ _ (rw same at h))))
    | inr other ↦ rw other (omega (arith, sum_of-put f d k v (rw other at h)))
  ]

  pub sum_of-put_new :
      (f : V → ℕ) (d : Dict V) (k : ℕ) (v : V)
      → lookup d k ≡ none
      → sum_of f (values (put d k v)) ≡ sum_of f (values d) + f v
  unfolding lookup put values
  sum_of-put_new f [] k v h = omega arith
  sum_of-put_new f ((j, x) ∷ d) k v h = ground (arith, sum_of-put_new f d k v)

  -- Should the key be in use, its old value goes.
  pub sum_of-put-le :
      (f : V → ℕ) (d : Dict V) (k : ℕ) (v : V)
      → sum_of f (values (put d k v)) ≤ sum_of f (values d) + f v
  unfolding put values
  sum_of-put-le f [] k v = omega arith
  sum_of-put-le f ((j, x) ∷ d) k v = ground (arith, sum_of-put-le f d k v)

  pub sum_of-keep :
      (f : V → ℕ) (p : V → Bool) (d : Dict V) → sum_of f (values (keep p d)) ≤ sum_of f (values d)
  unfolding keep values
  sum_of-keep f p [] = omega arith
  sum_of-keep f p ((j, x) ∷ d) = ground (arith, sum_of-keep f p d)

  pub length-put :
      (d : Dict V) (k : ℕ) (v : V)
      → length (put d k v) ≡ (if has_key d k then length d else length d + 1)
  unfolding lookup put
  length-put [] k v = refl
  length-put ((j, x) ∷ d) k v = ground (arith, length-put d k v)

  pub sum_of-remove :
      (f : V → ℕ) (d : Dict V) (k : ℕ) → sum_of f (values (remove k d)) ≤ sum_of f (values d)
  unfolding remove values
  sum_of-remove f [] k = omega arith
  sum_of-remove f ((j, x) ∷ d) k = ground (arith, sum_of-remove f d k)

  pub sum_of-remove_found :
      (f : V → ℕ) (d : Dict V) (k : ℕ) {v : V}
      → lookup d k ≡ some v
      → sum_of f (values (remove k d)) + f v ≤ sum_of f (values d)
  unfolding lookup remove values
  sum_of-remove_found f [] k h = cc
  sum_of-remove_found f ((j, x) ∷ d) k {v} h = elim (Bool-cases (j == k)) [
    | inl same ↦
        rw same (omega (arith, ap f (some-injective _ _ (rw same at h)), sum_of-remove f d k))
    | inr other ↦ rw other (omega (arith, sum_of-remove_found f d k (rw other at h)))
  ]

  pub values-append : (d e : Dict V) → values (d ++ e) ≡ values d ++ values e
  unfolding values
  values-append [] e = refl
  values-append ((j, x) ∷ d) e = ap (λ vs. x ∷ vs) (values-append d e)

  pub length-remove : (d : Dict V) (k : ℕ) → length (remove k d) ≤ length d
  unfolding remove
  length-remove [] k = omega arith
  length-remove ((j, x) ∷ d) k = ground (arith, length-remove d k)

  pub lookup-remove :
      (d : Dict V) (k j : ℕ) → lookup (remove k d) j ≡ (if k == j then none else lookup d j)
  unfolding lookup remove
  lookup-remove [] k j = ground arith
  lookup-remove ((i, x) ∷ d) k j = ground (arith, lookup-remove d k j)

  pub length-keep : (p : V → Bool) (d : Dict V) → length (keep p d) ≤ length d
  unfolding keep
  length-keep p [] = omega arith
  length-keep p ((j, x) ∷ d) = ground (arith, length-keep p d)

  -- A second write to a key hides the first.
  pub put-put : (d : Dict V) (k : ℕ) (v w : V) → put (put d k v) k w ≡ put d k w
  unfolding put
  put-put [] k v w = rw ==_refl
  put-put ((j, x) ∷ d) k v w = elim (Bool-cases (j == k)) [
    | inl same ↦ rw same (rw same)
    | inr other ↦ rw other (rw (other, put-put d k v w))
  ]

  pub has_key-put :
      (d : Dict V) (k j : ℕ) (v : V) → has_key d j ≡ true → has_key (put d k v) j ≡ true
  has_key-put d k j v h = ground (arith, lookup-put d k j v)

  -- What is kept passes the test.
  pub keep_passes : (p : V → Bool) (d : Dict V) → All (λ v. p v ≡ true) (values (keep p d))
  unfolding keep values
  keep_passes p [] = tt
  keep_passes p ((j, v) ∷ d) = elim (Bool-cases (p v)) [
    | inl kept ↦ rw (kept, All) (kept, keep_passes p d)
    | inr dropped ↦ rw (dropped, All) (keep_passes p d)
  ]

  -- No key stands twice.
  abbrev pub IsUnique : Dict V → Type 0
  IsUnique [] = Unit
  IsUnique ((j, v) ∷ d) = (has_key d j ≡ false) × IsUnique d

  has_key-keep :
      (p : V → Bool) (d : Dict V) (k : ℕ) → has_key d k ≡ false → has_key (keep p d) k ≡ false
  unfolding lookup keep
  has_key-keep p [] k h = refl
  has_key-keep p ((j, v) ∷ d) k h = ground (arith, has_key-keep p d k)

  pub keep-IsUnique : (p : V → Bool) (d : Dict V) → IsUnique d → IsUnique (keep p d)
  unfolding keep
  keep-IsUnique p [] h = tt
  keep-IsUnique p ((j, v) ∷ d) h = elim (Bool-cases (p v)) [
    | inl kept ↦ rw (kept, IsUnique) (has_key-keep p d j h.0, keep-IsUnique p d h.1)
    | inr dropped ↦ rw (dropped, IsUnique) (keep-IsUnique p d h.1)
  ]

  pub put-IsUnique : (d : Dict V) (k : ℕ) (v : V) → IsUnique d → IsUnique (put d k v)
  unfolding put lookup
  put-IsUnique [] k v h = (refl, tt)
  put-IsUnique ((j, w) ∷ d) k v h = elim (Bool-cases (j == k)) [
    | inl same ↦ rw (same, IsUnique) h
    | inr other ↦
        rw (other, IsUnique) (ground (arith, lookup-put d k j v, h.0), put-IsUnique d k v h.1)
  ]

  pub lookup-keep_stays :
      (p : V → Bool) (d : Dict V) (k : ℕ) {v : V}
      → lookup d k ≡ some v
      → p v ≡ true
      → lookup (keep p d) k ≡ some v
  unfolding lookup keep
  lookup-keep_stays p [] k h e = h
  lookup-keep_stays p ((j, w) ∷ d) k {v} h e = ground (arith, lookup-keep_stays p d k {v = v})

  pub lookup-keep :
      (p : V → Bool) (d : Dict V) (k : ℕ)
      → IsUnique d
      → lookup (keep p d) k
        ≡ (elim (lookup d k) [ none ↦ none | some v ↦ if p v then some v else none ])
  unfolding lookup keep
  lookup-keep p [] k h = refl
  lookup-keep p ((j, w) ∷ d) k h =
      ground (arith, h.0, lookup-keep p d k h.1, has_key-keep p d j h.0)

module _ {ℓ κ} {V : Type ℓ} (P : V → Type κ) where
  pub All-lookup : (d : Dict V) (k : ℕ) {v : V} → All P (values d) → lookup d k ≡ some v → P v
  unfolding lookup values
  All-lookup [] k h e = absurd (none-ne-some _ e)
  All-lookup ((j, w) ∷ d) k {v} h e = elim (Bool-cases (j == k)) [
    | inl same ↦ subst P (some-injective _ _ (rw same at e)) h.0
    | inr other ↦ All-lookup d k h.1 (rw other at e)
  ]

  pub All-put : (d : Dict V) (k : ℕ) (v : V) → All P (values d) → P v → All P (values (put d k v))
  unfolding put values
  All-put [] k v h p = (p, tt)
  All-put ((j, w) ∷ d) k v h p = elim (Bool-cases (j == k)) [
    | inl same ↦ rw same (p, h.1)
    | inr other ↦ rw other (h.0, All-put d k v h.1 p)
  ]

  pub All-remove : (d : Dict V) (k : ℕ) → All P (values d) → All P (values (remove k d))
  unfolding remove values
  All-remove [] k h = tt
  All-remove ((j, w) ∷ d) k h = elim (Bool-cases (j == k)) [
    | inl same ↦ rw same (All-remove d k h.1)
    | inr other ↦ rw other (h.0, All-remove d k h.1)
  ]

  pub All-keep : (q : V → Bool) (d : Dict V) → All P (values d) → All P (values (keep q d))
  unfolding keep values
  All-keep q [] h = tt
  All-keep q ((j, w) ∷ d) h = elim (Bool-cases (q w)) [
    | inl kept ↦ rw kept (h.0, All-keep q d h.1)
    | inr dropped ↦ rw dropped (All-keep q d h.1)
  ]
