-- ===== src/App/Storage.antt =====
-- src/value_stream/app/storage.py: `InMemoryWorkspaceStore`. A method is an action on the store that
-- may raise; the lock makes each of them atomic. A status is reached by its identifier in `runs`.
pub mod Pruning
pub mod Access
pub mod Admission
pub mod Editing
pub mod Memory
pub mod Limits
pub mod Calls
pub mod Freed
pub mod Retained
pub mod Revisions
pub mod Examples
use Prim.Native.Nat.{ℕ, suc, ◌+◌, ◌-◌}
use value_stream_simulator.Prelude.{
  Bool, true, false, not, ◌||◌, ◌&&◌, Option, none, some, List, [], ◌∷◌, ◌++◌, map, any, select,
  count_if, sum_of, ltb, ◌==◌, if◌then◌else◌,
}
use value_stream_simulator.Prelude.Exec.{Result, ok, Exec, pure, throw, gets, modify, ◌>>=◌, ◌>>◌}
use value_stream_simulator.Prelude.Dict.{Dict, lookup, remove, put, values}
use value_stream_simulator.Service.Schemas.{ResultData, ModelInput, TaskInput}
use value_stream_simulator.App.Schemas.{
  Code, workspace_not_found, run_not_found, key_error, TaskSetSpec, ScenarioDefinition,
  ConcreteScenario, TaskSet, RunRequest, is_terminal, OutcomeSummary, RunStatus, Workspace,
}
use value_stream_simulator.App.Settings.{AppSettings}

pub record RunRecord (F : Type 0) : Type 0 where
  pub status : RunStatus F
  pub task_set : TaskSet F
  pub request : RunRequest F
  pub request_hash : ℕ
  pub cache_keys : List ℕ
  pub results : Dict ℕ
  pub service_indices : List ℕ
  pub service_cursor : ℕ
  pub reservation : ℕ
  pub result_bytes : ℕ
  pub created_at : ℕ

abbrev pub Cache : Type 0 → Type 0
Cache F = Dict (ResultData F × ℕ)

pub record WorkspaceStore (F : Type 0) : Type 0 where
  pub workspaces : Dict (Workspace F)
  pub runs : Dict (RunRecord F)
  pub cache : Cache F
  pub clock_reads : ℕ
  pub ids_drawn : ℕ

-- What the store takes from the host: the n-th reading of the clock, the n-th identifier drawn, a
-- float literal (digits and decimal places), the length of a JSON text, and the SHA-256 digests.
pub record Host (F : Type 0) : Type 0 where
  pub monotonic : ℕ → ℕ
  pub uuid4 : ℕ → ℕ
  pub decimal : ℕ → ℕ → F
  pub result_bytes : ResultData F → ℕ
  pub status_bytes : RunStatus F → ℕ
  pub workspace_bytes : Workspace F → List (RunStatus F) → ℕ
  pub spec_digest : TaskSetSpec F → ℕ
  pub tasks_digest : List (TaskInput F) → ℕ
  pub request_digest : RunRequest F → ℕ
  pub preview_digest : ℕ → ℕ → List (ConcreteScenario F) → ℕ
  pub result_digest : ℕ → ModelInput F → ℕ → ℕ

-- What the store takes from app/generation.py.
pub record Generator (F : Type 0) : Type 0 where
  pub materialize_tasks : TaskSetSpec F → List (TaskInput F)
  pub expand_scenarios :
      List (ScenarioDefinition F) → AppSettings → Result Code (List (ConcreteScenario F))

abbrev pub Method : Type 0 → Type 0 → Type 0
Method F A = Exec Code (WorkspaceStore F) A

-- x in xs
unfoldable pub includes : ℕ → List ℕ → Bool
includes x = any (λ y. x == y)

-- x is the value of an optional field
unfoldable pub is_just : ℕ → Option ℕ → Bool
is_just x none = false
is_just x (some y) = x == y

-- xs.remove(x): the first occurrence goes.
unfoldable pub remove_first : ℕ → List ℕ → List ℕ
remove_first x [] = []
remove_first x (y ∷ ys) = let rest = remove_first x ys in if x == y then ys else y ∷ rest

module _ {F : Type 0} where
  unfoldable pub or_raise : {A : Type 0} → Code → Option A → Method F A
  or_raise e none = throw e
  or_raise e (some a) = pure a

  -- The store that `__init__` builds.
  unfoldable pub new_store : WorkspaceStore F
  new_store = record { workspaces = []; runs = []; cache = []; clock_reads = 0; ids_drawn = 0 }

  unfoldable pub is_active : RunRecord F → Bool
  is_active r = not (is_terminal r.status.state)

  unfoldable pub active_records : WorkspaceStore F → List (RunRecord F)
  unfolding is_active
  active_records s = select is_active (values s.runs)

  -- sum(v[1] for v in cache) + sum(r.reservation for r in runs)
  unfoldable pub used : WorkspaceStore F → ℕ
  used s = sum_of (λ v. v.1) (values s.cache) + sum_of (λ r. r.reservation) (values s.runs)

  -- The workspace under an identifier is replaced, or changed in place.
  unfoldable pub save_workspace : ℕ → Workspace F → Method F Unit
  save_workspace workspace_id w =
      modify (λ s. record s { workspaces = put s.workspaces workspace_id w })

  unfoldable pub save_run : ℕ → RunRecord F → Method F Unit
  save_run run_id r = modify (λ s. record s { runs = put s.runs run_id r })

  -- cache.move_to_end(key)
  unfoldable pub move_to_end : ℕ → Cache F → Cache F
  move_to_end key cache = elim (lookup cache key) [
    | none ↦ cache
    | some v ↦ remove key cache ++ (key, v) ∷ []
  ]

  -- `get`
  unfoldable pub get_workspace : ℕ → Method F (Workspace F)
  get_workspace workspace_id = do
    found ← gets (λ s. lookup s.workspaces workspace_id)
    or_raise workspace_not_found found

  unfoldable pub get_record : ℕ → Method F (RunRecord F)
  get_record run_id = do found ← gets (λ s. lookup s.runs run_id); or_raise key_error found

  -- `run`
  unfoldable pub find_run : ℕ → ℕ → Method F (RunRecord F)
  find_run workspace_id run_id = do
    w ← get_workspace workspace_id
    if includes run_id w.runs then get_record run_id else throw run_not_found

  -- p(status) for a status that the workspace lists
  unfoldable pub listed_status : (RunStatus F → Bool) → WorkspaceStore F → ℕ → Bool
  listed_status p s run_id = elim (lookup s.runs run_id) [ none ↦ false | some r ↦ p r.status ]

  -- any(r.state not in TERMINAL for r in w.runs)
  unfoldable pub has_active_run : WorkspaceStore F → Workspace F → Bool
  unfolding listed_status
  has_active_run s w = any (listed_status (λ status. not (is_terminal status.state)) s) w.runs
