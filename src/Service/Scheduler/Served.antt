-- ===== src/Service/Scheduler/Served.antt =====
-- scheduler.py and job_store.py together: the store under the reports that the scheduler makes.
use value_stream_simulator.Prelude.{◌≡◌, List, All, All-weaken}
use value_stream_simulator.Service.Settings.{ServiceSettings}
use value_stream_simulator.Service.JobStore.{Host, new_store}
use value_stream_simulator.Service.JobStore.Invariant.{StoreIsSound}
use value_stream_simulator.Service.JobStore.Calls.{
  Call, finish_call, create_call, reserve_call, status_call, page_call, start_call, cancel_call,
  IsWellReported, perform_all, reachable-IsSound,
}
use value_stream_simulator.Service.Scheduler.Report.{Run, report, Misnamed, report-Reported}

module _ {F : Type 0} (settings : ServiceSettings) (host : Host F) where
  -- What `finish_model` is given was made of a worker's run, and no result is for another model.
  abbrev pub IsServed : Call F → Type 0
  IsServed (finish_call job_id index result error) =
      (run : Run F) × (¬ Misnamed index run)
      × (result ≡ (report settings index run).result)
      × (error ≡ (report settings index run).error)
  IsServed _ = Unit

  served-IsWellReported : (c : Call F) → IsServed c → IsWellReported c
  served-IsWellReported (create_call n) h = tt
  served-IsWellReported (reserve_call n id f) h = tt
  served-IsWellReported (status_call id) h = tt
  served-IsWellReported (page_call id after) h = tt
  served-IsWellReported (start_call id index) h = tt
  served-IsWellReported (cancel_call id) h = tt
  served-IsWellReported (finish_call job_id index result error) (run, named, made, failed) =
      rw (made, failed) (report-Reported settings index run named)

  -- From a new store, under any interleaving of the clients' calls with those of the worker threads,
  -- as long as no worker exits with a result for another model: the store stays sound.
  pub served-IsSound :
      (calls : List (Call F))
      → All IsServed calls
      → StoreIsSound settings host (perform_all settings host calls new_store)
  served-IsSound calls h =
      reachable-IsSound settings host calls (All-weaken _ _ calls served-IsWellReported h)
