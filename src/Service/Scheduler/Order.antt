-- ===== src/Service/Scheduler/Order.antt =====
-- scheduler.py: in which order waiting jobs leave the queue when a job has ended.
use Prim.Native.Nat.{ℕ, ◌≤◌}
use value_stream_simulator.Prelude.{
  ◌≡◌, ◌⊎◌, true, Option, List, [], ◌∷◌, ◌++◌, length, if◌then◌else◌,
}
use value_stream_simulator.Service.Schemas.{JobState}
use value_stream_simulator.Service.Settings.{ServiceSettings}
use value_stream_simulator.Service.Scheduler.{Pool, Scheduler, add, is_wanted}

module _ {Request : Type 0} (view : ℕ → Option JobState) where
  -- The active jobs once the wanted ones of a list have been added in turn.
  pub add_wanted : List (ℕ × Request) → List ℕ → List ℕ
  add_wanted [] active = active
  add_wanted ((job_id, request) ∷ rest) active =
      add_wanted rest (if is_wanted (view job_id) then add job_id active else active)

module _ {Request : Type 0} (pool : Pool Request) (settings : ServiceSettings) where
  abbrev pub Stops : Scheduler pool → Type 0
  Stops s =
      (s.closed ≡ true)
      ⊎ ((s.pending_jobs ≡ []) ⊎ (settings.max_active_jobs ≤ length s.active_jobs))

  -- Where the queue stands once waiting jobs have been taken from it.
  abbrev pub Advances :
      (ℕ → Option JobState) → List (ℕ × Request) → List ℕ → Scheduler pool → Type 0
  Advances view pending active s =
      (taken : List (ℕ × Request)) × (pending ≡ taken ++ s.pending_jobs)
      × (s.active_jobs ≡ add_wanted view taken active)
      × Stops s
