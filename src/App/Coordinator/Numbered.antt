-- ===== src/App/Coordinator/Numbered.antt =====
-- coordinator.py: the cursors of a run's outcomes, each given once and in order.
pub mod Kept
use Prim.Native.Nat.{ℕ, suc, ◌+◌, ◌-◌, ◌≤◌, ◌<◌}
use value_stream_simulator.Prelude.{
  zero, ◌≡◌, ◌≢◌, refl, sym, ap, ◌∙◌, inl, inr, Bool, true, false, not, Option, none, some, List,
  [], ◌∷◌, length, get_elem?, set, drop, any, count_if, sum_of, sum_of-set, Bool-cases, ltb, ◌==◌,
  if◌then◌else◌, arith,
}
use value_stream_simulator.Service.Schemas.{Status}
use value_stream_simulator.App.Schemas.{Code, OutcomeSummary, RunStatus}
use value_stream_simulator.App.Coordinator.{has_cursor, closed, with_closed, fail_outcomes}

module _ {F : Type 0} where
  -- Each number from 1 to the last cursor is the cursor of one outcome, and no larger one is.
  unfoldable pub AreNumbered : List (OutcomeSummary F) → ℕ → Type 0
  AreNumbered os last =
      (k : ℕ) → count_if (λ o. o.cursor == suc k) os ≡ (if ltb k last then 1 else 0)

  unfoldable pub IsNumbered : RunStatus F → Type 0
  unfolding AreNumbered
  IsNumbered run = AreNumbered run.outcomes run.last_cursor

  -- The outcomes without a cursor.
  unfoldable pub open_count : List (OutcomeSummary F) → ℕ
  unfolding has_cursor
  open_count os = count_if (λ o. not (has_cursor o)) os

  pub with_closed-IsNumbered :
      (index : ℕ) (status : Status) (error : Option Code) (cached : Bool) (o0 o : OutcomeSummary F)
      (run : RunStatus F)
      → get_elem? run.outcomes index ≡ some o0
      → has_cursor o0 ≡ false
      → IsNumbered run
      → IsNumbered (with_closed index status error cached o run)
  unfolding IsNumbered AreNumbered with_closed closed has_cursor
  with_closed-IsNumbered index status error cached o0 o run found undone h k =
      let o' = closed status error cached run.last_cursor o in
      ground (
        arith,
        undone,
        h k,
        sum_of-set (λ (x : OutcomeSummary F). if x.cursor == suc k then 1 else 0) run.outcomes index
            o' found,
      )

  pub with_closed-open_count :
      (index : ℕ) (status : Status) (error : Option Code) (cached : Bool) (o0 o : OutcomeSummary F)
      (run : RunStatus F)
      → get_elem? run.outcomes index ≡ some o0
      → has_cursor o0 ≡ false
      → open_count (with_closed index status error cached o run).outcomes + 1
        ≡ open_count run.outcomes
  unfolding open_count with_closed closed has_cursor
  with_closed-open_count index status error cached o0 o run found undone =
      let o' = closed status error cached run.last_cursor o in
      ground (
        arith,
        undone,
        sum_of-set (λ (x : OutcomeSummary F). if not (has_cursor x) then 1 else 0) run.outcomes
            index o' found,
      )

cons-ne-nil : {A : Type 0} {x : A} {xs : List A} → [] ≢ x ∷ xs
cons-ne-nil h = cc

drop-cons :
    {A : Type 0} (xs : List A) (i : ℕ) {x : A} {ys : List A}
    → drop i xs ≡ x ∷ ys
    → (get_elem? xs i ≡ some x) × (drop (suc i) xs ≡ ys)
drop-cons [] zero h = absurd (cons-ne-nil h)
drop-cons [] (suc i) h = absurd (cons-ne-nil h)
drop-cons (y ∷ ys) zero h = (cc, cc)
drop-cons (y ∷ ys) (suc i) h = drop-cons ys i h

drop-set : {A : Type 0} (xs : List A) (i : ℕ) (v : A) → drop (suc i) (set xs i v) ≡ drop (suc i) xs
drop-set [] i v = refl
drop-set (y ∷ ys) zero v = refl
drop-set (y ∷ ys) (suc i) v = drop-set ys i v

module _ {F : Type 0} where
  with_closed-drop :
      (index : ℕ) (status : Status) (error : Option Code) (cached : Bool) (o : OutcomeSummary F)
      (run : RunStatus F)
      → drop (suc index) (with_closed index status error cached o run).outcomes
        ≡ drop (suc index) run.outcomes
  unfolding with_closed
  with_closed-drop index status error cached o run = drop-set run.outcomes index _

  -- Where the loop of a failure stands: the outcomes that are left are these, no other is without
  -- a cursor, and the cursors are in order.
  abbrev StandsAt : ℕ → List (OutcomeSummary F) → RunStatus F → Type 0
  StandsAt index os run =
      (drop index run.outcomes ≡ os) × (open_count run.outcomes ≡ open_count os) × IsNumbered run

  fail_one :
      (error : Code) (index : ℕ) (o : OutcomeSummary F) (os : List (OutcomeSummary F))
      (run : RunStatus F) (b : Bool)
      → has_cursor o ≡ b
      → StandsAt index (o ∷ os) run
      → StandsAt
          (suc index)
          os
          (if b then run else with_closed index Status.failed (some error) false o run)
  unfolding open_count
  fail_one error index o os run true done (at, count, h) =
      ((drop-cons run.outcomes index at).1, ground (arith, count, done), h)
  fail_one error index o os run false undone (at, count, h) =
      let (found, rest) = drop-cons run.outcomes index at in
      let fewer =
        with_closed-open_count index Status.failed (some error) false o o run found undone in
      (
        with_closed-drop index Status.failed (some error) false o run ∙ rest,
        ground (arith, count, undone, fewer),
        with_closed-IsNumbered index Status.failed (some error) false o o run found undone h,
      )

  -- After the loop of a failure the cursors are in order, and no outcome is without one.
  pub fail_outcomes_lem :
      (error : Code) (index : ℕ) (os : List (OutcomeSummary F)) (run : RunStatus F)
      → StandsAt index os run
      → IsNumbered (fail_outcomes error index os run)
        × (open_count (fail_outcomes error index os run).outcomes ≡ 0)
  unfolding fail_outcomes open_count
  fail_outcomes_lem error index [] run (at, count, h) = (h, count)
  fail_outcomes_lem error index (o ∷ os) run at =
      fail_outcomes_lem error (suc index) os _
        (fail_one error index o os run (has_cursor o) refl at)
