-- ===== src/App/Settings.antt =====
-- src/value_stream/app/settings.py: `AppSettings`, the limits of one instance of the application.
-- Seconds are numbers of some unit of the host's clock.
use Prim.Native.Nat.{ℕ}
use value_stream_simulator.Prelude.{Bool, [], ◌∷◌, all, ltb}

pub record AppSettings : Type 0 where
  pub max_workspaces : ℕ
  pub max_task_sets : ℕ
  pub max_definitions : ℕ
  pub max_tasks : ℕ
  pub max_models : ℕ
  pub max_resources : ℕ
  pub max_axis_values : ℕ
  pub max_pins : ℕ
  pub max_active_runs : ℕ
  pub max_retained_runs : ℕ
  pub max_body_bytes : ℕ
  pub max_input_bytes : ℕ
  pub max_result_bytes : ℕ
  pub max_run_bytes : ℕ
  pub max_model_bytes : ℕ
  pub poll_seconds : ℕ
  pub retry_seconds : ℕ
  pub min_interactive_seconds : ℕ

-- `__post_init__`: false where it raises. A number here is finite.
unfoldable pub accepted : AppSettings → Bool
accepted s = all (ltb 0) (
    s.max_workspaces ∷ s.max_task_sets ∷ s.max_definitions ∷ s.max_tasks ∷ s.max_models
    ∷ s.max_resources ∷ s.max_axis_values ∷ s.max_pins ∷ s.max_active_runs ∷ s.max_retained_runs
    ∷ s.max_body_bytes ∷ s.max_input_bytes ∷ s.max_result_bytes ∷ s.max_run_bytes
    ∷ s.max_model_bytes ∷ s.poll_seconds ∷ s.retry_seconds ∷ s.min_interactive_seconds ∷ [])
