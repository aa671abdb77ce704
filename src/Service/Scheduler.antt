-- ===== src/Service/Scheduler.antt =====
-- src/value_stream/service/scheduler.py: the queue of `ModelScheduler`. The store's view of a job
-- (`status`, none where it raises JobNotFound) and the pool's futures are parameters. The lock makes
-- each method atomic; a callback of a future that ends meanwhile is a call of its own.
pub mod Report
pub mod Slots
pub mod Stall
pub mod Served
pub mod Order
mod Examples
use Prim.Native.Nat.{ℕ, zero, suc}
use value_stream_simulator.Prelude.{
  Bool, true, false, not, ◌&&◌, ◌||◌, Option, none, some, List, [], ◌∷◌, ◌++◌, map, length, select,
  all, any, ltb, leb, ◌==◌, if◌then◌else◌,
}
use value_stream_simulator.Prelude.Exec.{Result, ok, raise, Exec}
use value_stream_simulator.Prelude.Dict.{Dict, lookup, put, remove}
use value_stream_simulator.Service.Schemas.{JobState}
use value_stream_simulator.Service.Settings.{ServiceSettings}
use value_stream_simulator.Service.JobStore.{is_cancelled}

-- What the scheduler takes from `concurrent.futures` and from a request.
pub record Pool (Request : Type 0) : Type 1 where
  pub Future : Type 0
  pub submit : ℕ → Request → ℕ → Future
  pub done : Future → Bool
  pub cancel : Future → Future
  pub models : Request → ℕ

pub data SchedulerError : Type 0 where
  scheduler_closed job_not_found : SchedulerError

-- `set.add`, `set.discard` and `range`.
abbrev pub contains : ℕ → List ℕ → Bool
contains x = any (λ y. y == x)

unfoldable pub add : ℕ → List ℕ → List ℕ
add x xs = if contains x xs then xs else x ∷ xs

unfoldable pub discard : ℕ → List ℕ → List ℕ
discard x xs = select (λ y. not (y == x)) xs

unfoldable pub range : ℕ → ℕ → List ℕ
range first zero = []
range first (suc n) = first ∷ range (suc first) n

-- A pending job that is cancelled or gone is skipped.
unfoldable pub is_wanted : Option JobState → Bool
is_wanted none = false
is_wanted (some st) = not (is_cancelled st)

module _ {Request : Type 0} (pool : Pool Request) where
  pub record Scheduler : Type 0 where
    pub futures : Dict (List pool.Future)
    pub active_jobs : List ℕ
    pub pending_jobs : List (ℕ × Request)
    pub closed : Bool

  unfoldable pub new_scheduler : Scheduler
  new_scheduler = record { futures = []; active_jobs = []; pending_jobs = []; closed = false }

  -- `_start_job`, and the `_active_jobs.add` before each of its calls.
  unfoldable pub start_job : ℕ → Request → Scheduler → Scheduler
  start_job job_id request s = record s {
    active_jobs = add job_id s.active_jobs;
    futures =
        put s.futures job_id
          (map (λ i. pool.submit job_id request i) (range 0 (pool.models request)));
  }

  abbrev pub futures_of : ℕ → Scheduler → List pool.Future
  futures_of job_id s = elim (lookup s.futures job_id) [ none ↦ [] | some futures ↦ futures ]

  unfoldable pub cancel_futures : ℕ → Scheduler → Scheduler
  cancel_futures job_id s = elim (lookup s.futures job_id) [
    | none ↦ s
    | some futures ↦ record s { futures = put s.futures job_id (map pool.cancel futures) }
  ]

  -- A future that is cancelled before it runs is done, and calls back.
  unfoldable pub newly_done : List pool.Future → Bool
  newly_done futures = any (λ f. not (pool.done f) && pool.done (pool.cancel f)) futures

  unfoldable pub withdraw : ℕ → Scheduler → Scheduler
  withdraw job_id s =
      cancel_futures job_id
        record s { pending_jobs = select (λ p. not (p.0 == job_id)) s.pending_jobs }

  module _ (settings : ServiceSettings) where
    abbrev pub has_room : Scheduler → Bool
    has_room s = ltb (length s.active_jobs) settings.max_active_jobs

    unfoldable pub submit : ℕ → Request → Exec SchedulerError Scheduler Unit
    submit job_id request s =
        if s.closed
        then (raise scheduler_closed, s)
        else if leb settings.max_active_jobs (length s.active_jobs)
        then (ok tt, record s { pending_jobs = s.pending_jobs ++ (job_id, request) ∷ [] })
        else (ok tt, start_job job_id request s)

    module _ (view : ℕ → Option JobState) where
      -- The loop of `_forget_finished`.
      unfoldable pub start_pending : List (ℕ × Request) → Scheduler → Scheduler
      start_pending [] s = record s { pending_jobs = [] }
      start_pending ((job_id, request) ∷ rest) s = elim (not s.closed && has_room s) [
        | false ↦ record s { pending_jobs = (job_id, request) ∷ rest }
        | true ↦ elim (is_wanted (view job_id)) [
          | true ↦ start_pending rest (start_job job_id request s)
          | false ↦ start_pending rest s
        ]
      ]

      unfoldable pub forget : ℕ → Scheduler → Scheduler
      forget job_id s =
          start_pending s.pending_jobs record s {
            futures = remove job_id s.futures;
            active_jobs = discard job_id s.active_jobs;
          }

      unfoldable pub forget_finished : ℕ → Scheduler → Scheduler
      forget_finished job_id s = elim (lookup s.futures job_id) [
        | none ↦ s
        | some futures ↦ if all pool.done futures then forget job_id s else s
      ]

      -- `cancel`, after the store's own, which finds the job or not.
      unfoldable pub cancel : Bool → ℕ → Exec SchedulerError Scheduler Unit
      cancel found job_id s =
          if not found
          then (raise job_not_found, s)
          else if newly_done (futures_of job_id s)
          then (ok tt, forget_finished job_id (withdraw job_id s))
          else (ok tt, withdraw job_id s)

      unfoldable pub cancel_all : (ℕ → Bool) → List ℕ → Scheduler → Scheduler
      cancel_all found [] s = s
      cancel_all found (job_id ∷ rest) s = cancel_all found rest (cancel (found job_id) job_id s).1

      unfoldable pub close : (ℕ → Bool) → Scheduler → Scheduler
      close found s =
          if s.closed
          then s
          else cancel_all found (map (λ p. p.0) s.futures ++ map (λ p. p.0) s.pending_jobs)
              record s { closed = true }
