-- ===== src/Task/Delivery/Laws.antt =====
-- What the methods of task.py do to a task, where they return and where they raise.
use Prim.Native.Nat.{ℕ}
use value_stream_simulator.Prelude.{
  ◌≡◌, refl, ◌⊎◌, inl, inr, true, false, Option, some, [], ◌∷◌, ◌++◌, Bool-cases, arith,
}
use value_stream_simulator.Prelude.Exec.{Result, ok, raise, continue, ok-injective}
use value_stream_simulator.Prelude.Number.{Number, IsOrdered}
use value_stream_simulator.Task.Event.{
  EventStatus, ValueError, to_sim_time, to_epoch_time, terminal_event,
}
use value_stream_simulator.Task.History.Calls.{terminate_cases}
use value_stream_simulator.Task.Delivery.{
  Task, value_at, value, value_of, on_history, deliver, terminate_task,
}

module _ (n : Number) where
  -- The completed points, with those left over, are what was completed before and the points given.
  -- The task is not completed beyond its story points nor below zero, and points are left over only
  -- where it is complete. An error says that the sum is negative, and leaves it with the task.
  abbrev pub IsWorked : n.Float → Task n → Result {0, 0} ValueError n.Float × Task n → Type 0
  IsWorked points task (ok rest, after) =
      (n.add after.history.completed_story_points rest
        ≡ n.add task.history.completed_story_points points)
      × (n.le after.history.completed_story_points task.story_points ≡ true)
      × (n.lt after.history.completed_story_points n.zero ≡ false)
      × ((rest ≡ n.zero) ⊎ (after.history.completed_story_points ≡ task.story_points))
  IsWorked points task (raise x, after) =
      (x ≡ ValueError.negative_points)
      × (after.history.completed_story_points ≡ n.add task.history.completed_story_points points)
      × (n.lt after.history.completed_story_points n.zero ≡ true)

  -- A time of an epoch that the clock has reached is no negative time.
  to_epoch_time-nonneg :
      IsOrdered n
      → (offset sim_t : n.Float) {t : n.Float} → to_epoch_time n offset sim_t ≡ ok t
      → n.lt t n.zero ≡ false
  unfolding to_epoch_time
  to_epoch_time-nonneg laws offset sim_t {t} h = elim (Bool-cases (n.lt sim_t offset)) [
    | inl early ↦ cc (rw early at h)
    | inr due ↦
        let reached : n.le offset sim_t ≡ true = ground (arith, due, laws.lt-not_le sim_t offset) in
        let passed : n.sub sim_t offset ≡ t = ok-injective (rw due at h) in
        rw (← passed) (
          ground (
            arith,
            due,
            laws.lt-not_le sim_t offset,
            laws.lt-not_le (n.sub sim_t offset) n.zero,
            rw (laws.sub-self offset) at (laws.sub-mono offset sim_t offset reached),
          ))
  ]

  -- The two ends of a call of `terminate` on the task.
  unfoldable pub Terminates :
      n.Float
      → ℕ
      → EventStatus
      → Option ℕ
      → Task n
      → Result {0, 0} ValueError Unit × Task n
      → Type 0
  Terminates sim_t event status id task r =
      ((x : ValueError) × (r ≡ (raise x, task)))
      ⊎ ((t : n.Float) × (to_epoch_time n task.history.epoch_start_sim_t sim_t ≡ ok t)
          × (r ≡ (
            ok tt,
            record task {
              history = record task.history {
                events =
                    task.history.events
                    ++ terminal_event n event t task.task_type task.is_rework status id ∷ [];
                delivered_value = some (value_at n task (n.add t task.history.epoch_start_sim_t));
              };
            },
          )))

  -- On finite numbers: `terminate` of a task either raises and
  -- leaves the task as it was, or appends one terminal event and records the value that the task has
  -- at the time of the call.
  pub terminate_task_lem :
      IsOrdered n
      → (sim_t : n.Float) (event : ℕ) (status : EventStatus) (id : Option ℕ) (task : Task n)
      → Terminates sim_t event status id task (terminate_task n sim_t event status id task)
  unfolding terminate_task on_history deliver value value_of to_sim_time Terminates
  terminate_task_lem laws sim_t event status id task =
      terminate_cases n
        (λ r.
          Terminates sim_t event status id task
            (continue r.0 (λ u. deliver n sim_t) record task { history = r.1 }))
        task.history sim_t event task.task_type task.is_rework status id
        (λ t timed passed. inr (t, timed, rw (timed, to_epoch_time-nonneg laws _ sim_t timed) refl))
        (λ x. inl (x, refl))
