-- ===== src/Task/History/Calls.antt =====
-- The calls that the workflow makes on a history of task_history.py, and the two ways in which each
-- can end: it raises and leaves the history, or it passes all its tests and writes.
use Prim.Native.Nat.{ℕ}
use value_stream_simulator.Prelude.{◌≡◌, refl, Bool, Option, List, [], ◌∷◌, ◌++◌}
use value_stream_simulator.Prelude.Exec.{Result, ok, raise, ◌>>=◌}
use value_stream_simulator.Prelude.Number.{Number}
use value_stream_simulator.Task.Event.{
  TaskType, EventStatus, ValueError, TaskEvent, start_event, terminal_event, to_epoch_time,
}
use value_stream_simulator.Task.History.{
  TaskHistory, HistoryMethod, last, but_last, of_result, append, last_event, epoch_time,
  check_start, start, ending, finish, check_resume, resume, check_terminate, terminate,
}

module _ (n : Number) where
  pub data Call : Type 0 where
    start_call : n.Float → ℕ → TaskType → Bool → Option ℕ → Call
    finish_call : n.Float → TaskType → Bool → Option ℕ → EventStatus → n.Float → Option ℕ → Call
    resume_call : ℕ → Call
    terminate_call : n.Float → ℕ → TaskType → Bool → EventStatus → Option ℕ → Call

  unfoldable pub run : Call → HistoryMethod n Unit
  run (start_call t e tt' r id) = start n t e tt' r id
  run (finish_call t tt' r e st l id) = finish n t tt' r e st l id
  run (resume_call e) = resume n e
  run (terminate_call t e tt' r st id) = terminate n t e tt' r st id

  -- The history after some calls, of which each may have raised.
  unfoldable pub run_all : List Call → TaskHistory n → TaskHistory n
  run_all [] h = h
  run_all (c ∷ cs) h = run_all cs (run c h).1

  abbrev pub add : TaskEvent n → TaskHistory n → TaskHistory n
  add e h = record h { events = h.events ++ e ∷ [] }

  module _ {ℓ} (P : Result {0, 0} ValueError Unit × TaskHistory n → Type ℓ)
      (h : TaskHistory n) where
    bind_cases :
        {A : Type 0} (r : Result ValueError A) (k : A → HistoryMethod n Unit)
        → ((a : A) → r ≡ ok a → P (k a h))
        → ((x : ValueError) → P (raise x, h))
        → P ((of_result n r >>= k) h)
    unfolding of_result
    bind_cases (ok a) k good bad = good a refl
    bind_cases (raise x) k good bad = bad x

    pub start_cases :
        (sim_time : n.Float) (event : ℕ) (task_type : TaskType) (is_rework : Bool) (id : Option ℕ)
        → ((t : n.Float)
            → to_epoch_time n h.epoch_start_sim_t sim_time ≡ ok t
            → check_start n t (last n h.events) ≡ ok tt
            → P (ok tt, add (start_event n event t task_type is_rework EventStatus.success id) h))
        → ((x : ValueError) → P (raise x, h))
        → P (start n sim_time event task_type is_rework id h)
    unfolding start epoch_time last_event append
    start_cases sim_time event task_type is_rework id good bad =
        bind_cases (to_epoch_time n h.epoch_start_sim_t sim_time) _
          (λ t timed.
            bind_cases (check_start n t (last n h.events)) _ (λ u passed. good t timed passed) bad)
          bad

    pub finish_cases :
        (sim_time : n.Float) (task_type : TaskType) (is_rework : Bool) (event : Option ℕ)
        (status : EventStatus) (loss : n.Float) (id : Option ℕ)
        → ((t : n.Float) (e : TaskEvent n)
            → to_epoch_time n h.epoch_start_sim_t sim_time ≡ ok t
            → ending n t task_type is_rework event status loss id (last n h.events) ≡ ok e
            → P (ok tt, add e h))
        → ((x : ValueError) → P (raise x, h))
        → P (finish n sim_time task_type is_rework event status loss id h)
    unfolding finish epoch_time last_event append
    finish_cases sim_time task_type is_rework event status loss id good bad =
        bind_cases (to_epoch_time n h.epoch_start_sim_t sim_time) _
          (λ t timed.
            bind_cases (ending n t task_type is_rework event status loss id (last n h.events)) _
              (λ e passed. good t e timed passed) bad)
          bad

    pub resume_cases :
        (event : ℕ)
        → (check_resume n event (last n h.events) ≡ ok tt
            → P (ok tt, record h { events = but_last n h.events }))
        → ((x : ValueError) → P (raise x, h))
        → P (resume n event h)
    unfolding resume last_event
    resume_cases event good bad =
        bind_cases (check_resume n event (last n h.events)) _ (λ u passed. good passed) bad

    pub terminate_cases :
        (sim_time : n.Float) (event : ℕ) (task_type : TaskType) (is_rework : Bool)
        (status : EventStatus) (id : Option ℕ)
        → ((t : n.Float)
            → to_epoch_time n h.epoch_start_sim_t sim_time ≡ ok t
            → check_terminate n t (last n h.events) ≡ ok tt
            → P (ok tt, add (terminal_event n event t task_type is_rework status id) h))
        → ((x : ValueError) → P (raise x, h))
        → P (terminate n sim_time event task_type is_rework status id h)
    unfolding terminate epoch_time last_event append
    terminate_cases sim_time event task_type is_rework status id good bad =
        bind_cases (to_epoch_time n h.epoch_start_sim_t sim_time) _
          (λ t timed.
            bind_cases (check_terminate n t (last n h.events)) _ (λ u passed. good t timed passed)
              bad)
          bad
