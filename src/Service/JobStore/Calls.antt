-- ===== src/Service/JobStore/Calls.antt =====
-- The store of job_store.py under any sequence of calls: each is atomic under the lock, so threads
-- interleave whole calls.
use Prim.Native.Nat.{ℕ}
use value_stream_simulator.Prelude.{Option, List, [], ◌∷◌, All, arith}
use value_stream_simulator.Prelude.Dict.{values}
use value_stream_simulator.Service.Schemas.{ResultData, ModelError}
use value_stream_simulator.Service.Settings.{ServiceSettings}
use value_stream_simulator.Service.JobStore.{JobStore, Host, new_store, nonterminal, retained_bytes}
use value_stream_simulator.Service.JobStore.Access.{create, reserve, status, page}
use value_stream_simulator.Service.JobStore.Models.{start_model, finish_model, cancel}
use value_stream_simulator.Service.JobStore.Invariant.{StoreIsSound}
use value_stream_simulator.Service.JobStore.Invariant.Methods.{
  status-Keeps, page-Keeps, start_model-Keeps, finish_model-Keeps, cancel-Keeps, Reported,
}
use value_stream_simulator.Service.JobStore.Invariant.Creation.{create-Keeps, reserve-Keeps}

-- The methods of `JobStorage`, with their arguments.
pub data Call (F : Type 0) : Type 0 where
  create_call : ℕ → Call F
  reserve_call : ℕ → Option ℕ → ℕ → Call F
  status_call : ℕ → Call F
  page_call : ℕ → ℕ → Call F
  start_call : ℕ → ℕ → Call F
  finish_call : ℕ → ℕ → Option (ResultData F) → Option ModelError → Call F
  cancel_call : ℕ → Call F

-- A report names the model that it is given for, and is not both a result and an error.
abbrev pub IsWellReported : {F : Type 0} → Call F → Type 0
IsWellReported (finish_call job_id index result error) = Reported index result error
IsWellReported _ = Unit

module _ {F : Type 0} (settings : ServiceSettings) (host : Host F) where
  -- The store after a call, which may have raised.
  unfoldable pub perform : Call F → JobStore F → JobStore F
  perform (create_call n) s = (create settings host n s).1
  perform (reserve_call n id fingerprint) s = (reserve settings host n id fingerprint s).1
  perform (status_call id) s = (status settings host id s).1
  perform (page_call id after) s = (page settings host id after s).1
  perform (start_call id index) s = (start_model settings host id index s).1
  perform (finish_call id index result error) s =
      (finish_model settings host id index result error s).1
  perform (cancel_call id) s = (cancel settings host id s).1

  unfoldable pub perform_all : List (Call F) → JobStore F → JobStore F
  perform_all [] s = s
  perform_all (c ∷ cs) s = perform_all cs (perform c s)

  perform-IsSound :
      (c : Call F) (s : JobStore F)
      → IsWellReported c
      → StoreIsSound settings host s
      → StoreIsSound settings host (perform c s)
  unfolding perform
  perform-IsSound (create_call n) s w = create-Keeps settings host n s
  perform-IsSound (reserve_call n id fingerprint) s w =
      reserve-Keeps settings host n id fingerprint s
  perform-IsSound (status_call id) s w = status-Keeps settings host id s
  perform-IsSound (page_call id after) s w = page-Keeps settings host id after s
  perform-IsSound (start_call id index) s w = start_model-Keeps settings host id index s
  perform-IsSound (finish_call id index result error) s w =
      finish_model-Keeps settings host id index result error w s
  perform-IsSound (cancel_call id) s w = cancel-Keeps settings host id s

  perform_all-IsSound :
      (cs : List (Call F)) (s : JobStore F)
      → All IsWellReported cs
      → StoreIsSound settings host s
      → StoreIsSound settings host (perform_all cs s)
  unfolding perform_all
  perform_all-IsSound [] s w v = v
  perform_all-IsSound (c ∷ cs) s w v =
      perform_all-IsSound cs (perform c s) w.1 (perform-IsSound c s w.0 v)

  new_store-IsSound : StoreIsSound settings host new_store
  unfolding new_store values nonterminal retained_bytes
  new_store-IsSound = record {
    unique = tt;
    valid = tt;
    retained = omega arith;
    stored = omega arith;
    active = omega arith;
    linked = tt;
  }

  -- From a new store, whatever the calls and their order, as long as every report names the model
  -- that it is given for and is not both a result and an error: each stored job is valid (its
  -- outcomes are numbered from 1, each finished model has exactly one, an unfinished model has none,
  -- statuses agree; a job that has models has ended exactly when all of them have; a job that has
  -- ended is cancelled where a model is cancelled or it has none, else completed with errors where a
  -- model failed, else completed; one that has not is queued or running, with no model cancelled),
  -- retained bytes, retained jobs and unfinished jobs stay within the settings' limits, and every
  -- submission names a stored job.
  pub reachable-IsSound :
      (calls : List (Call F))
      → All IsWellReported calls
      → StoreIsSound settings host (perform_all calls new_store)
  reachable-IsSound calls w = perform_all-IsSound calls new_store w new_store-IsSound
