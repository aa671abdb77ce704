-- ===== src/Service/JobStore/Invariant/Methods.antt =====
-- Every method of job_store.py keeps the store's invariant.
use Prim.Native.Nat.{ℕ, ◌+◌, ◌≤◌}
use value_stream_simulator.Prelude.{
  ◌≡◌, refl, sym, ap, ◌∙◌, inl, inr, Bool, true, false, Option, none, some, get_elem?, all,
  Bool-cases, ==_refl, if◌then◌else◌, arith,
}
use value_stream_simulator.Prelude.Exec.{◌>>=◌}
use value_stream_simulator.Prelude.Dict.{lookup, put, put-put, All-lookup}
use value_stream_simulator.Service.Schemas.{ResultData, ModelError, Status, valid_shape}
use value_stream_simulator.Service.Settings.{ServiceSettings}
use value_stream_simulator.Service.JobStore.{
  Error, Job, JobStore, Host, Method, is_live, is_finished, is_some, same_status, is_nonterminal,
  retained_bytes, save, or_raise, monotonic,
}
use value_stream_simulator.Service.JobStore.Access.{status, page}
use value_stream_simulator.Service.JobStore.Models.{
  Admitted, no_outcome, too_large, admit, exceeds, outcome_of, with_state, with_outcome, begun,
  begin_model, start_model, settled, close_job, close_if_finished, append_outcome, record_outcome,
  finish_model, cancelled_job, cancel_live, cancel,
}
use value_stream_simulator.Service.JobStore.JobInvariant.{IsValid, outcome_bytes}
use value_stream_simulator.Service.JobStore.JobInvariant.Finish.{
  begin-IsValid, still_open, with_outcome-Accounts, with_outcome-open, with_outcome-uncancelled,
  with_outcome-any_model, settled-IsValid,
}
use value_stream_simulator.Service.JobStore.JobInvariant.Cancel.{cancelled_job-IsValid}
use value_stream_simulator.Service.JobStore.Invariant.{
  StoreIsSound, put-IsSound, Keeps, get_job-Keeps,
}

same_status-eq : (a b : Status) → same_status a b ≡ true → a ≡ b
unfolding same_status
same_status-eq a b h = ground arith

module _ {F : Type 0} where
  -- The report of a worker that names its own model, with a result or an error and not both.
  abbrev pub Reported : ℕ → Option (ResultData F) → Option ModelError → Type 0
  Reported index none none = Unit
  Reported index none (some e) = e.model_index ≡ index
  Reported index (some r) none = r.model_index ≡ index
  Reported index (some r) (some e) = ⊥

module _ {F : Type 0} (settings : ServiceSettings) (host : Host F) where
  pub or_raise-Keeps :
      {A B : Type 0} (e : Error) (o : Option A) (k : A → Method F B) (s : JobStore F)
      → StoreIsSound settings host s
      → ((a : A) → o ≡ some a → StoreIsSound settings host (k a s).1)
      → StoreIsSound settings host ((or_raise e o >>= k) s).1
  unfolding or_raise
  or_raise-Keeps e none k s v keeps = v
  or_raise-Keeps e (some a) k s v keeps = keeps a refl

  pub if-Keeps :
      {A : Type 0} (b : Bool) (m n : Method F A) (s : JobStore F)
      → (b ≡ true → StoreIsSound settings host (m s).1)
      → (b ≡ false → StoreIsSound settings host (n s).1)
      → StoreIsSound settings host ((if b then m else n) s).1
  if-Keeps true m n s h k = h refl
  if-Keeps false m n s h k = k refl

  pub status-Keeps : (job_id : ℕ) → Keeps settings host (status settings host job_id)
  unfolding status
  status-Keeps job_id = get_job-Keeps settings host job_id _ (λ job s v found. v)

  pub page-Keeps : (job_id after : ℕ) → Keeps settings host (page settings host job_id after)
  unfolding page
  page-Keeps job_id after = get_job-Keeps settings host job_id _ (λ job s v found. v)

  begin_model-IsSound :
      (job_id index : ℕ) (job : Job F) (s : JobStore F)
      → StoreIsSound settings host s
      → lookup s.jobs job_id ≡ some job
      → get_elem? job.states index ≡ some Status.queued
      → StoreIsSound settings host (begin_model job_id index job s).1
  unfolding begin_model save
  begin_model-IsSound job_id index job s v found at =
      put-IsSound settings host s.jobs s.submissions job_id job (begun index job) v found
        (begin-IsValid settings host job index
          (All-lookup (IsValid settings host) s.jobs job_id v.valid found) at)
        (unfold begun in omega (arith, v.retained)) (unfold begun in omega arith)

  pub start_model-Keeps :
      (job_id index : ℕ) → Keeps settings host (start_model settings host job_id index)
  unfolding start_model
  start_model-Keeps job_id index = get_job-Keeps settings host job_id _ λ job s v found.
      or_raise-Keeps Error.index_error (get_elem? job.states index) _ s v λ st at.
        if-Keeps (same_status Status.queued st) _ _ s
          (λ queued.
            begin_model-IsSound job_id index job s v found
              (at ∙ ap some (sym (same_status-eq Status.queued st queued))))
          (λ _. v)

  cancel_live-IsSound :
      (job_id : ℕ) (job : Job F) (s : JobStore F)
      → StoreIsSound settings host s
      → lookup s.jobs job_id ≡ some job
      → job.terminal_at ≡ none
      → StoreIsSound settings host (cancel_live settings host job_id job s).1
  unfolding cancel_live monotonic save
  cancel_live-IsSound job_id job s v found opened =
      let now = host.monotonic s.clock_reads in
      put-IsSound settings host s.jobs s.submissions job_id job (cancelled_job now job) v found
        (cancelled_job-IsValid settings host now job
          (All-lookup (IsValid settings host) s.jobs job_id v.valid found) opened)
        (unfold cancelled_job in omega (arith, v.retained)) (unfold cancelled_job in omega arith)

  pub cancel-Keeps : (job_id : ℕ) → Keeps settings host (cancel settings host job_id)
  unfolding cancel
  cancel-Keeps job_id = get_job-Keeps settings host job_id _ λ job s v found.
      if-Keeps (is_some job.terminal_at) _ _ s (λ _. v)
        (λ opened. cancel_live-IsSound job_id job s v found (ground arith))

  pub admit-shape :
      (retained index : ℕ) (job : Job F) (result : Option (ResultData F))
      (error : Option ModelError)
      → Reported index result error
      → valid_shape (outcome_of index job (admit settings host retained index job result error))
        ≡ true
  unfolding valid_shape outcome_of admit no_outcome too_large
  admit-shape retained index job none none h = ==_refl index
  admit-shape retained index job none (some e) h = ground arith
  admit-shape retained index job (some r) none h = ground arith
  admit-shape retained index job (some r) (some e) h = absurd h

  admit-size :
      (retained index : ℕ) (job : Job F) (result : Option (ResultData F))
      (error : Option ModelError)
      → let a = admit settings host retained index job result error in
        (a.size ≡ outcome_bytes settings host (outcome_of index job a))
        × (job.result_bytes ≤ settings.max_job_outcome_bytes
            → job.result_bytes + a.size ≤ settings.max_job_outcome_bytes)
        × (retained ≤ settings.max_retained_bytes → retained + a.size ≤ settings.max_retained_bytes)
  unfolding outcome_of admit exceeds
  admit-size retained index job result error = ground arith

  -- What `record_outcome` leaves: the job with the outcome, ended if it was the last one.
  pub record_outcome_lem :
      (job_id index : ℕ) (job : Job F) (a : Admitted F) (s : JobStore F)
      → valid_shape (outcome_of index job a) ≡ true
      → ((record_outcome settings host job_id index job a s).1.jobs
          ≡ put s.jobs job_id (settled (host.monotonic s.clock_reads) (with_outcome index job a)))
        × ((record_outcome settings host job_id index job a s).1.submissions ≡ s.submissions)
  unfolding record_outcome append_outcome close_if_finished close_job monotonic save settled
  record_outcome_lem job_id index job a s shape =
      rw shape (elim (Bool-cases (all is_finished (with_outcome index job a).states)) [
        | inl done ↦ rw done (simp put-put, refl)
        | inr more ↦ rw more (simp put-put, refl)
      ])

  settled_bounds :
      (now : ℕ) (job : Job F)
      → ((settled now job).result_bytes ≡ job.result_bytes)
        × ((if is_nonterminal (settled now job) then 1 else 0) ≤ 1)
  unfolding settled
  settled_bounds now job = ground arith

  record_outcome-IsSound :
      (job_id index : ℕ) (job : Job F) (old : Status) (a : Admitted F) (s : JobStore F)
      → StoreIsSound settings host s
      → lookup s.jobs job_id ≡ some job
      → get_elem? job.states index ≡ some old
      → is_live old ≡ true
      → valid_shape (outcome_of index job a) ≡ true
      → a.size ≡ outcome_bytes settings host (outcome_of index job a)
      → job.result_bytes + a.size ≤ settings.max_job_outcome_bytes
      → retained_bytes s.jobs + a.size ≤ settings.max_retained_bytes
      → StoreIsSound settings host (record_outcome settings host job_id index job a s).1
  record_outcome-IsSound job_id index job old a s v found at live shape size room total =
      let now = host.monotonic s.clock_reads in
      let valid = All-lookup (IsValid settings host) s.jobs job_id v.valid found in
      let opened = still_open settings host job index old valid at live in
      let (jobs, submissions) = record_outcome_lem job_id index job a s shape in
      let (bytes, less) = settled_bounds now (with_outcome index job a) in
      rw (jobs, submissions)
        (put-IsSound settings host s.jobs s.submissions job_id job
          (settled now (with_outcome index job a)) v found
          (settled-IsValid settings host (with_outcome index job a) now
            (with_outcome-Accounts settings host job index old a valid at live shape size room)
            (with_outcome-open settings host job index old a valid at live shape size room)
            (unfold with_outcome with_state in valid.open_state opened)
            (with_outcome-uncancelled settings host job index old a valid at live shape size room)
            (with_outcome-any_model settings host job index old a valid at live shape size room))
          (unfold with_outcome with_state in omega (arith, bytes, total)) (simp opened less))

  pub finish_model-Keeps :
      (job_id index : ℕ) (result : Option (ResultData F)) (error : Option ModelError)
      → Reported index result error
      → Keeps settings host (finish_model settings host job_id index result error)
  unfolding finish_model
  finish_model-Keeps job_id index result error reported =
      get_job-Keeps settings host job_id _ λ job s v found.
        or_raise-Keeps Error.index_error (get_elem? job.states index) _ s v λ st at.
          if-Keeps (is_live st) _ _ s
            (λ live.
              let valid = All-lookup (IsValid settings host) s.jobs job_id v.valid found in
              let (size, room, total) = admit-size (retained_bytes s.jobs) index job result error in
              record_outcome-IsSound job_id index job st _ s v found at live
                (admit-shape (retained_bytes s.jobs) index job result error reported) size
                (room valid.fits) (total v.retained))
            (λ _. v)
