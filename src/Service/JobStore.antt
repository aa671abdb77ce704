-- ===== src/Service/JobStore.antt =====
-- src/value_stream/service/job_store.py: `InMemoryJobStore`. A method is an action on the store that
-- may raise; the lock makes each of them atomic. `time.monotonic`, `uuid.uuid4` and the size of a
-- serialised result are the host's. The store counts its calls of the clock and of `uuid4`.
pub mod Access
pub mod Models
pub mod States
pub mod JobInvariant
pub mod Invariant
pub mod Calls
pub mod Paging
pub mod Repeats
pub mod Reports
pub mod Resubmit
mod Examples
use Prim.Native.Nat.{ℕ, suc, ◌-◌}
use value_stream_simulator.Prelude.{
  Bool, true, false, not, ◌||◌, ◌&&◌, Option, none, some, List, [], ◌∷◌, ◌++◌, map, length,
  get_elem?, set, replicate, select, count_if, sum_of, all, any, leb, ltb, ◌==◌, if◌then◌else◌,
}
use value_stream_simulator.Prelude.Exec.{
  Result, ok, raise, Exec, pure, throw, gets, modify, continue, ◌>>=◌, ◌>>◌,
}
use value_stream_simulator.Prelude.Dict.{Dict, lookup, has_key, put, keep, values}
use value_stream_simulator.Service.Schemas.{
  ResultData, ModelError, result_too_large, worker_failed, Status, JobState, OutcomeData,
  OutcomePage, JobStatus, valid_shape,
}
use value_stream_simulator.Service.Settings.{ServiceSettings}

-- The exceptions that a method may raise; the last two are Python's and pydantic's own.
pub data Error : Type 0 where
  job_not_found capacity_exceeded submission_conflict index_error validation_error : Error

pub record Job (F : Type 0) : Type 0 where
  pub job_id : ℕ
  pub states : List Status
  pub created_at : ℕ
  pub status : JobState
  pub outcomes : List (OutcomeData F)
  pub result_bytes : ℕ
  pub terminal_at : Option ℕ

pub record JobStore (F : Type 0) : Type 0 where
  pub jobs : Dict (Job F)
  pub submissions : Dict (ℕ × ℕ)
  pub clock_reads : ℕ
  pub ids_drawn : ℕ

-- What the store takes from the host: the n-th reading of the clock, the n-th identifier drawn, and
-- the length of a result's JSON text.
pub record Host (F : Type 0) : Type 0 where
  pub monotonic : ℕ → ℕ
  pub uuid4 : ℕ → ℕ
  pub json_bytes : ResultData F → ℕ

unfoldable pub is_live : Status → Bool
is_live Status.queued = true
is_live Status.running = true
is_live _ = false

unfoldable pub is_finished : Status → Bool
unfolding is_live
is_finished st = not (is_live st)

-- states.count(st)
unfoldable pub same_status : Status → Status → Bool
same_status Status.queued Status.queued = true
same_status Status.running Status.running = true
same_status Status.succeeded Status.succeeded = true
same_status Status.failed Status.failed = true
same_status Status.cancelled Status.cancelled = true
same_status _ _ = false

abbrev pub is_cancelled : JobState → Bool
is_cancelled JobState.cancelled = true
is_cancelled _ = false

abbrev pub Method : Type 0 → Type 0 → Type 0
Method F A = Exec Error (JobStore F) A

abbrev pub is_some : {A : Type 0} → Option A → Bool
is_some none = false
is_some (some _) = true

module _ {F : Type 0} where
  -- The store that `__init__` builds.
  unfoldable pub new_store : JobStore F
  new_store = record { jobs = []; submissions = []; clock_reads = 0; ids_drawn = 0 }

  abbrev pub is_nonterminal : Job F → Bool
  is_nonterminal job = not (is_some job.terminal_at)

  unfoldable pub nonterminal : Dict (Job F) → ℕ
  nonterminal jobs = count_if is_nonterminal (values jobs)

  unfoldable pub retained_bytes : Dict (Job F) → ℕ
  retained_bytes jobs = sum_of (λ job. job.result_bytes) (values jobs)

  unfoldable pub save : ℕ → Job F → Method F Unit
  save job_id job = modify (λ s. record s { jobs = put s.jobs job_id job })

  unfoldable pub or_raise : {A : Type 0} → Error → Option A → Method F A
  or_raise e none = throw e
  or_raise e (some a) = pure a

module _ {F : Type 0} (settings : ServiceSettings) (host : Host F) where
  -- One call of `time.monotonic`, and one of `uuid.uuid4`.
  unfoldable pub monotonic : Method F ℕ
  monotonic s = (ok (host.monotonic s.clock_reads), record s { clock_reads = suc s.clock_reads })

  unfoldable pub draw_id : Method F ℕ
  draw_id s = (ok (host.uuid4 s.ids_drawn), record s { ids_drawn = suc s.ids_drawn })

  -- The limit is positive, so a difference that stops at 0 answers as a negative one does.
  unfoldable pub is_retained : ℕ → Job F → Bool
  is_retained now job = elim job.terminal_at [
    | none ↦ true
    | some t ↦ not (leb settings.job_ttl_seconds (now - t))
  ]

  -- `_prune`: expired jobs go, and then the submissions that name no job.
  unfoldable pub prune : Method F Unit
  unfolding is_retained monotonic
  prune = do
    now ← monotonic
    jobs ← gets (λ s. keep (is_retained now) s.jobs)
    modify (λ s. record s { jobs = jobs; submissions = keep (λ v. has_key jobs v.1) s.submissions })

  -- `_get`
  unfoldable pub get_job : ℕ → Method F (Job F)
  get_job job_id = do prune; found ← gets (λ s. lookup s.jobs job_id); or_raise job_not_found found
