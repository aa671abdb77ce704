-- ===== src/App/Storage/Freed.antt =====
-- storage.py: what `prune_cache` removes and what it leaves.
use Prim.Native.Nat.{ℕ, ◌+◌, ◌-◌, ◌≤◌, ◌<◌}
use mathlib.Core.Path.{subst}
use value_stream_simulator.Prelude.{
  ◌≡◌, refl, ◌⊎◌, inl, inr, Bool, true, false, not, ◌&&◌, ◌||◌, List, [], ◌∷◌, All, Bool-cases,
  ==_iff, sym, ltb, ◌==◌, if◌then◌else◌, arith,
}
use value_stream_simulator.Prelude.Dict.{lookup, values}
use value_stream_simulator.App.Settings.{AppSettings}
use value_stream_simulator.App.Storage.{Cache, WorkspaceStore, used}
use value_stream_simulator.App.Storage.Pruning.{is_needed, prune_entries, pruned}
use value_stream_simulator.App.Storage.Memory.{cache_bytes, cache_bytes-prune_entries}

dropped-needed :
    (needed : ℕ → Bool) (b : Bool) (k key : ℕ)
    → (not (needed k) && b) ≡ true
    → (k == key) ≡ true
    → needed key ≡ true
    → ⊥
dropped-needed needed b k key gone same h =
    spare (needed k) b gone (subst (λ x. needed x ≡ true) (sym ((==_iff k key).0 same)) h)
  where
    spare : (n c : Bool) → (not n && c) ≡ true → n ≡ true → ⊥
    spare true c e h = cc
    spare false c e h = cc

module _ {F : Type 0} (needed : ℕ → Bool) (limit required : ℕ) where
  -- A needed entry stays as it is.
  pub lookup-prune_entries :
      (bytes : ℕ) (cache : Cache F) (key : ℕ)
      → needed key ≡ true
      → lookup (prune_entries needed limit required bytes cache) key ≡ lookup cache key
  unfolding prune_entries lookup
  lookup-prune_entries bytes [] key h = refl
  lookup-prune_entries bytes ((k, v) ∷ entries) key h =
      let goes = not (needed k) && (required == 0 || ltb limit (bytes + required)) in
      let rest = lookup-prune_entries (if goes then bytes - v.1 else bytes) entries key h in
      elim (Bool-cases goes) [
        | inl gone ↦ rw gone (elim (Bool-cases (k == key)) [
          | inl same ↦ absurd (dropped-needed needed _ k key gone same h)
          | inr other ↦ rw other (rw gone at rest)
        ])
        | inr kept ↦ rw kept (elim (Bool-cases (k == key)) [
          | inl same ↦ rw same refl
          | inr other ↦ rw other (rw kept at rest)
        ])
      ]

  -- With a need for room, either there is room after the loop or all that is left is needed.
  pub prune_entries-frees :
      (bytes : ℕ) (cache : Cache F)
      → 0 < required
      → cache_bytes cache ≤ bytes
      → (cache_bytes (prune_entries needed limit required bytes cache) + bytes + required
          ≤ limit + cache_bytes cache)
        ⊎ All (λ entry. needed entry.0 ≡ true) (prune_entries needed limit required bytes cache)
  unfolding prune_entries cache_bytes values
  prune_entries-frees bytes [] some_room h = inr tt
  prune_entries-frees bytes ((k, v) ∷ entries) some_room h =
      let goes = not (needed k) && (required == 0 || ltb limit (bytes + required)) in
      elim (Bool-cases goes) [
        | inl gone ↦
            rw gone (elim (prune_entries-frees (bytes - v.1) entries some_room (omega (arith, h))) [
              | inl fits ↦ inl (omega (arith, fits, h))
              | inr left ↦ inr left
            ])
        | inr kept ↦
            rw kept (elim (prune_entries-frees bytes entries some_room (omega (arith, h))) [
              | inl fits ↦ inl (omega (arith, fits))
              | inr left ↦ elim (Bool-cases (needed k)) [
                | inl held ↦ inr (held, left)
                | inr spare ↦ inl (
                    omega (
                      arith,
                      cache_bytes-prune_entries needed limit required bytes entries,
                      room_left spare kept,
                    ))
              ]
            ])
      ]
    where
      room_left :
          needed k ≡ false
          → (not (needed k) && (required == 0 || ltb limit (bytes + required))) ≡ false
          → bytes + required ≤ limit
      room_left spare kept = ground (arith, some_room, spare, kept)

module _ {F : Type 0} (settings : AppSettings) where
  -- A pruning for some bytes leaves an entry as it is that a run refers to, an active run waits for
  -- or the caller protects; and after it the bytes fit, or only such entries are left.
  pub pruned-Frees :
      (required : ℕ) (protect : List ℕ) (s : WorkspaceStore F) (key : ℕ)
      → 0 < required
      → is_needed s.runs protect key ≡ true
      → (lookup (pruned settings required protect s).cache key ≡ lookup s.cache key)
        × ((used (pruned settings required protect s) + required ≤ settings.max_result_bytes)
            ⊎ All
                (λ entry. is_needed s.runs protect entry.0 ≡ true)
                (pruned settings required protect s).cache)
  unfolding pruned used cache_bytes
  pruned-Frees required protect s key some_room h =
      let needed = is_needed s.runs protect in
      let limit = settings.max_result_bytes in
      (
        lookup-prune_entries needed limit required (used s) s.cache key h,
        elim (prune_entries-frees needed limit required (used s) s.cache some_room (omega arith)) [
          | inl fits ↦ inl (omega (arith, fits))
          | inr left ↦ inr left
        ],
      )
