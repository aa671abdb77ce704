-- ===== src/Simulation/Policy.antt =====
-- src/value_stream/simulation/default_simulation_policy.py: `DefaultSimulationPolicy`.
mod Examples
use Prim.Native.Nat.{ℕ}
use value_stream_simulator.Prelude.{
  ◌≡◌, refl, Bool, true, false, not, ◌&&◌, ◌||◌, Option, none, some, List, [], ◌∷◌, if◌then◌else◌,
  ltb, arith,
}
use value_stream_simulator.Prelude.Number.{Number}
use value_stream_simulator.Task.Event.{TaskType}
use value_stream_simulator.Task.Delivery.{Task}

-- The answers -1, 0 and 1 of `task_priority`.
pub data Priority : Type 0 where
  first_list neither second_list : Priority

pub data AssignmentStrategy : Type 0 where
  random cyclic owner next_available : AssignmentStrategy

abbrev pub is_support : TaskType → Bool
is_support TaskType.support = true
is_support TaskType.development = false

module _ {n : Number} where
  unfoldable pub task_priority : List (Task n) → List (Task n) → Priority
  task_priority [] [] = neither
  task_priority [] (t ∷ ts) = second_list
  task_priority (t ∷ ts) [] = first_list
  task_priority (t ∷ ts) (u ∷ us) =
      if is_support t.task_type
      then first_list
      else if is_support u.task_type
      then second_list
      else neither

  unfoldable pub support_assignment_strategy : List (Task n) → AssignmentStrategy
  support_assignment_strategy [] = next_available
  support_assignment_strategy (t ∷ ts) =
      if not (is_support t.task_type) && t.is_rework
      then owner
      else if is_support t.task_type
      then random
      else next_available

  -- Whether a list is led by a support task.
  abbrev pub supports : List (Task n) → Bool
  supports [] = false
  supports (t ∷ ts) = is_support t.task_type

  -- How much a list matters: not at all where it is empty, and most where support leads it.
  abbrev pub rank : List (Task n) → ℕ
  rank [] = 0
  rank (t ∷ ts) = if is_support t.task_type then 2 else 1

  -- Of two lists, one that is led by a support task goes before any other, and one that is led by a
  -- development task goes before an empty one; of two of the same rank neither goes before the
  -- other, but where both are led by support tasks the list given first does.
  pub task_priority_lem :
      (ts us : List (Task n))
      → task_priority ts us ≡ (
          if ltb (rank us) (rank ts)
          then first_list
          else if ltb (rank ts) (rank us)
          then second_list
          else if supports ts
          then first_list
          else neither)
  unfolding task_priority
  task_priority_lem [] [] = refl
  task_priority_lem [] (u ∷ us) = ground arith
  task_priority_lem (t ∷ ts) [] = ground arith
  task_priority_lem (t ∷ ts) (u ∷ us) = ground arith
