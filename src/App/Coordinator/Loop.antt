-- ===== src/App/Coordinator/Loop.antt =====
-- coordinator.py: the polling loop of `execute`, what it does on a failure, and `launch`,
-- `cancel_run` and `resume`.
use Prim.Native.Nat.{ℕ, zero, suc, ◌-◌, ◌*◌}
use value_stream_simulator.Prelude.{
  Bool, true, false, not, ◌&&◌, Option, none, some, List, [], ◌∷◌, length, leb, ltb, ◌==◌,
  if◌then◌else◌,
}
use value_stream_simulator.Prelude.Exec.{Result, ok, raise, pure, throw, ◌>>=◌, ◌>>◌}
use value_stream_simulator.Prelude.Number.{Number}
use value_stream_simulator.Prelude.Dict.{lookup}
use value_stream_simulator.Service.Schemas.{JobRequest}
use value_stream_simulator.App.Schemas.{
  Code, service_unavailable, body_too_large, key_error, RunState, is_terminal,
}
use value_stream_simulator.App.Settings.{AppSettings}
use value_stream_simulator.App.Storage.{
  WorkspaceStore, Host, Method, includes, or_raise, get_record, find_run,
}
use value_stream_simulator.App.Storage.Access.{monotonic, finish}
use value_stream_simulator.App.Storage.Admission.{min}
use value_stream_simulator.App.Coordinator.{
  Replies, Waiting, shown_error, fail_outcomes, update_status, with_state, scenarios_at,
  job_request, complete_cached, poll,
}

module _ {F : Type 0} (settings : AppSettings) (host : Host F) (second : ℕ) where
  -- retry_start or time.monotonic(): a start at 0 counts as none.
  unfoldable pub started : Option ℕ → Method F ℕ
  unfolding monotonic
  started none = monotonic host
  started (some zero) = monotonic host
  started (some (suc t)) = pure (suc t)

  -- delay = min(5, delay * 2)
  unfoldable pub longer : ℕ → ℕ
  unfolding min
  longer delay = min (5 * second) (delay * 2)

  -- The loop waits longer, or after a time gives up until it is resumed.
  unfoldable pub wait_or_pause : ℕ → Waiting → ℕ → ℕ → Method F (Option Waiting)
  unfolding update_status longer
  wait_or_pause run_id w start now =
      if leb settings.retry_seconds (now - start)
      then (do update_status run_id (λ run. record run { retry_paused = true }); pure none)
      else pure (some (record { retry_start = some start; delay = longer w.delay }))

  -- The service is unavailable.
  unfoldable pub reconnect : ℕ → Waiting → Method F (Option Waiting)
  unfolding update_status started monotonic wait_or_pause
  reconnect run_id w = do
    update_status run_id
        (λ run. record run { state = RunState.reconnecting; error = some service_unavailable })
    start ← started w.retry_start
    now ← monotonic host
    wait_or_pause run_id w start now

  unfoldable pub fresh : Waiting
  fresh = record { retry_start = none; delay = settings.poll_seconds }

  -- What `execute` does on an error that ends the run.
  unfoldable pub fail_run : ℕ → ℕ → Code → Method F Unit
  unfolding update_status shown_error fail_outcomes with_state finish
  fail_run workspace_id run_id e = do
    update_status run_id (λ run. with_state RunState.failed (
        fail_outcomes (shown_error e) 0 run.outcomes (record run { error = some (shown_error e) })))
    finish settings host workspace_id run_id

-- status.state in TERMINAL
unfoldable pub has_ended : {F : Type 0} → ℕ → WorkspaceStore F → Bool
has_ended run_id s = elim (lookup s.runs run_id) [
  | none ↦ false
  | some r ↦ is_terminal r.status.state
]

-- How a turn ends.
pub data Turn : Type 0 where
  ended again : Turn
  retry : Turn
  broken : Code → Turn

unfoldable pub turn_of : Result {0, 0} Code Bool → Turn
turn_of (ok true) = ended
turn_of (ok false) = again
turn_of (raise service_unavailable) = retry
turn_of (raise e) = broken e

-- The delays that the loop sleeps for, and the store that it leaves.
abbrev pub Slept : Type 0 → Type 0
Slept F = List ℕ × WorkspaceStore F

-- asyncio.sleep(delay), before the rest of the loop
unfoldable pub slept : {F : Type 0} → ℕ → Slept F → Slept F
slept delay (delays, s) = (delay ∷ delays, s)

module _ {F : Type 0} (settings : AppSettings) (host : Host F) (second : ℕ) where
  -- What follows a turn, with the rest of the loop.
  unfoldable pub after_retry :
      ℕ
      → ℕ
      → (Waiting → WorkspaceStore F → Slept F)
      → Result {0, 0} Code (Option Waiting)
      → WorkspaceStore F
      → Slept F
  unfolding fail_run slept
  after_retry workspace_id run_id rest (raise e) s =
      ([], (fail_run settings host second workspace_id run_id e s).1)
  after_retry workspace_id run_id rest (ok none) s = ([], s)
  after_retry workspace_id run_id rest (ok (some w)) s = slept w.delay (rest w s)

  unfoldable pub after_turn :
      ℕ → ℕ → Waiting → (Waiting → WorkspaceStore F → Slept F) → Turn → WorkspaceStore F → Slept F
  unfolding fresh fail_run reconnect after_retry slept
  after_turn workspace_id run_id w rest ended s = ([], s)
  after_turn workspace_id run_id w rest again s =
      slept settings.poll_seconds (rest (fresh settings host second) s)
  after_turn workspace_id run_id w rest (broken e) s =
      ([], (fail_run settings host second workspace_id run_id e s).1)
  after_turn workspace_id run_id w rest retry s =
      let (result, s') = reconnect settings host second run_id w s in
      after_retry workspace_id run_id rest result s'

module _ (n : Number) (settings : AppSettings) (host : Host n.Float) (second : ℕ) where
  -- while status.state not in TERMINAL, over the answers of the service turn by turn; where they
  -- end, the loop waits for more.
  unfoldable pub loop :
      ℕ → ℕ → Waiting → List (Replies n.Float) → WorkspaceStore n.Float → Slept n.Float
  unfolding has_ended poll turn_of after_turn
  loop workspace_id run_id w [] s = ([], s)
  loop workspace_id run_id w (replies ∷ rest) s =
      let go =
        λ (w' : Waiting) (s' : WorkspaceStore n.Float). loop workspace_id run_id w' rest s' in
      let (result, s') = poll n settings host workspace_id run_id replies s in
      if has_ended run_id s
      then ([], s)
      else after_turn settings host second workspace_id run_id w go (turn_of result) s'

module _ (n : Number) (settings : AppSettings) (host : Host n.Float) (second : ℕ) (uuid5 : ℕ → ℕ)
    (request_bytes : JobRequest n.Float → ℕ) where
  -- The part of `execute` before the loop: true where the cache has every result.
  unfoldable pub prepare : ℕ → ℕ → Method n.Float Bool
  unfolding get_record complete_cached update_status with_state finish or_raise scenarios_at
      job_request
  prepare workspace_id run_id = do
    r ← get_record run_id
    complete_cached n settings host run_id 0 r.cache_keys
    r ← get_record run_id
    if length r.service_indices == 0
        then (do
          update_status run_id (with_state RunState.completed)
          finish settings host workspace_id run_id
          pure true)
        else (do
          scenarios ← or_raise key_error (scenarios_at r.service_indices r.status.outcomes)
          if ltb settings.max_body_bytes (request_bytes (job_request (uuid5 run_id) r scenarios))
              then throw body_too_large
              else pure false)

  unfoldable pub after_prepare :
      ℕ
      → ℕ
      → List (Replies n.Float)
      → Result {0, 0} Code Bool
      → WorkspaceStore n.Float
      → WorkspaceStore n.Float
  unfolding fail_run loop fresh
  after_prepare workspace_id run_id replies (raise e) s =
      (fail_run settings host second workspace_id run_id e s).1
  after_prepare workspace_id run_id replies (ok true) s = s
  after_prepare workspace_id run_id replies (ok false) s =
      (loop n settings host second workspace_id run_id (fresh settings host second) replies s).1

  unfoldable pub execute :
      ℕ → ℕ → List (Replies n.Float) → WorkspaceStore n.Float → WorkspaceStore n.Float
  unfolding prepare after_prepare
  execute workspace_id run_id replies s =
      let (result, s') = prepare workspace_id run_id s in
      after_prepare workspace_id run_id replies result s'

-- `cancel_run` and `resume`, up to the start of the task: true where one is launched. `running` says
-- which runs have a task.
module _ {F : Type 0} where
  unfoldable pub launch : ℕ → Method F Bool
  unfolding update_status
  launch run_id = do update_status run_id (λ run. record run { retry_paused = false }); pure true

  unfoldable pub cancel_run : List ℕ → ℕ → ℕ → Method F Bool
  unfolding find_run update_status includes launch
  cancel_run running workspace_id run_id = do
    r ← find_run workspace_id run_id
    if is_terminal r.status.state then pure false else (do
      update_status run_id
          (λ run. record run { cancel_requested = true; state = RunState.cancelling })
      if includes run_id running then pure false else launch run_id)

  unfoldable pub resume : List ℕ → ℕ → ℕ → Method F Bool
  unfolding find_run includes launch
  resume running workspace_id run_id = do
    r ← find_run workspace_id run_id
    if not (is_terminal r.status.state) && not (includes run_id running)
        then launch run_id
        else pure false
