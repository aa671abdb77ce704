-- ===== src/Service/Settings.antt =====
-- src/value_stream/service/settings.py: the limits that the job store and the scheduler read.
-- Seconds are counted in the ticks of the clock.
use Prim.Native.Nat.{ℕ}
use value_stream_simulator.Prelude.{Bool, [], ◌∷◌, all, ltb}

pub record ServiceSettings : Type 0 where
  pub max_tasks : ℕ
  pub max_models : ℕ
  pub max_body_bytes : ℕ
  pub max_active_jobs : ℕ
  pub max_queued_jobs : ℕ
  pub max_model_workers : ℕ
  pub max_model_seconds : ℕ
  pub max_model_outcome_bytes : ℕ
  pub max_job_outcome_bytes : ℕ
  pub max_retained_jobs : ℕ
  pub max_retained_bytes : ℕ
  pub job_ttl_seconds : ℕ

-- What `__post_init__` asks: no limit is zero (or negative, which no number here is).
unfoldable pub all_positive : ServiceSettings → Bool
all_positive s =
    all (λ limit. ltb 0 limit)
      (s.max_tasks ∷ s.max_models ∷ s.max_body_bytes ∷ s.max_active_jobs ∷ s.max_queued_jobs
        ∷ s.max_model_workers ∷ s.max_model_seconds ∷ s.max_model_outcome_bytes
        ∷ s.max_job_outcome_bytes ∷ s.max_retained_jobs ∷ s.max_retained_bytes ∷ s.job_ttl_seconds
        ∷ [])
