-- ===== src/App/Storage/Limits/Register.antt =====
-- storage.py: `prune_history` and `register` keep the limits.
use Prim.Native.Nat.{ℕ, suc, ◌<◌}
use mathlib.Core.Path.{subst}
use mathlib.Core.Option.{some-injective}
use value_stream_simulator.Prelude.{
  ◌≡◌, inl, inr, Bool, true, false, Option, none, some, List, length, Bool-cases, leb,
  if◌then◌else◌, arith,
}
use value_stream_simulator.Prelude.Exec.{Result, ok, raise, pure, throw, continue, ◌>>◌}
use value_stream_simulator.Prelude.Keeps.{Keeps, bind_leads}
use value_stream_simulator.Prelude.Dict.{lookup, put, values, lookup-put_self, All-lookup}
use value_stream_simulator.App.Schemas.{
  Code, app_capacity, Intent, manual, interactive, ConcreteScenario, TaskSet, RunRequest, Workspace,
}
use value_stream_simulator.App.Settings.{AppSettings}
use value_stream_simulator.App.Storage.{
  RunRecord, WorkspaceStore, Host, is_active, active_records, save_workspace, has_active_run,
}
use value_stream_simulator.App.Storage.Pruning.{drop_runs, prune_history}
use value_stream_simulator.App.Storage.Access.{monotonic}
use value_stream_simulator.App.Storage.Admission.{
  previous, too_soon, is_hasty, fill, admit, register,
}
use value_stream_simulator.App.Storage.Memory.{FitsIn, actives, drop_runs-keeps, remove-FitsIn}
use value_stream_simulator.App.Storage.Limits.{
  IsShort, StoreIsWithin, save_workspace-IsWithin, get_workspace-Keeps, get_record-Keeps,
}
use value_stream_simulator.App.Storage.Limits.Pruned.{
  IsReady, length-drop_runs, length-select, actives-remove,
}
use value_stream_simulator.App.Storage.Limits.Room.{fill-IsWithin}

module _ {F : Type 0} (settings : AppSettings) where
  -- What is known once the checks of `register` have passed.
  record IsOpen (workspace_id : ℕ) (w : Workspace F) (s : WorkspaceStore F) : Type 0 where
    within : StoreIsWithin settings s
    found : lookup s.workspaces workspace_id ≡ some w
    slot : actives s.runs < settings.max_active_runs

module _ {F : Type 0} (settings : AppSettings) where
  -- The store after the loop of `prune_history`.
  abbrev after_history : ℕ → Workspace F → WorkspaceStore F → WorkspaceStore F
  after_history workspace_id w s =
      let left = drop_runs settings.max_retained_runs w w.runs w.runs s.runs in
      record s {
        runs = left.1;
        workspaces = put s.workspaces workspace_id (record w { runs = left.0 });
      }

  after_history-IsWithin :
      (workspace_id : ℕ) (w : Workspace F) (s : WorkspaceStore F)
      → IsOpen settings workspace_id w s
      → StoreIsWithin settings (after_history workspace_id w s)
  unfolding save_workspace
  after_history-IsWithin workspace_id w s v =
      let R = settings.max_retained_runs in
      let left = drop_runs R w w.runs w.runs s.runs in
      let short = All-lookup (IsShort settings) s.workspaces workspace_id v.within.short v.found in
      let fewer = length-drop_runs R w w.runs w.runs s.runs in
      let listed =
        save_workspace-IsWithin settings workspace_id w (record w { runs = left.0 }) s v.found
          (short.0, omega (arith, short.1, fewer)) v.within in
      record {
        few = listed.few;
        short = listed.short;
        fits =
            drop_runs-keeps
              (λ runs. FitsIn settings.max_result_bytes settings.max_active_runs runs s.cache)
              (remove-FitsIn _ _ s.cache) R w w.runs w.runs s.runs v.within.fits;
      }

  after_history-IsReady :
      (workspace_id : ℕ) (w : Workspace F) (s : WorkspaceStore F)
      → length (drop_runs settings.max_retained_runs w w.runs w.runs s.runs).0
        < settings.max_retained_runs
      → IsOpen settings workspace_id w s
      → IsReady settings workspace_id (after_history workspace_id w s)
  after_history-IsReady workspace_id w s room v =
      let R = settings.max_retained_runs in
      record {
        within = after_history-IsWithin workspace_id w s v;
        room = λ x e.
            subst (λ y. length y.runs < R)
              (some-injective _ _ (rw (lookup-put_self s.workspaces workspace_id) at e)) room;
        slot =
            drop_runs-keeps (λ runs. actives runs < settings.max_active_runs)
              (actives-remove settings) R w w.runs w.runs s.runs v.slot;
      }

module _ {F : Type 0} (settings : AppSettings) (host : Host F) where
  too_soon-Keeps :
      (workspace_id : ℕ) (w : Workspace F) (intent : Intent) (latest : Option ℕ)
      → Keeps (IsOpen settings workspace_id w) (too_soon settings host intent latest)
  unfolding too_soon monotonic
  too_soon-Keeps workspace_id w manual latest s v = v
  too_soon-Keeps workspace_id w interactive none s v = v
  too_soon-Keeps workspace_id w interactive (some run_id) s v =
      get_record-Keeps (IsOpen settings workspace_id w) run_id _ _ later (λ r found. later)
    where
      later : IsOpen settings workspace_id w (record s { clock_reads = suc s.clock_reads })
      later = record { within = v.within; found = v.found; slot = v.slot }

  place-IsWithin :
      (workspace_id : ℕ) (w : Workspace F) (request : RunRequest F)
      (scenarios : List (ConcreteScenario F)) (task_set : TaskSet F) (s : WorkspaceStore F)
      → IsOpen settings workspace_id w s
      → StoreIsWithin settings
          (◌>>◌
            (prune_history settings workspace_id w)
            (fill settings host workspace_id request scenarios task_set)
            s).1
  unfolding prune_history save_workspace
  place-IsWithin workspace_id w request scenarios task_set s v =
      let left = drop_runs settings.max_retained_runs w w.runs w.runs s.runs in
      elim (Bool-cases (leb settings.max_retained_runs (length left.0))) [
        | inl full ↦ rw full (after_history-IsWithin settings workspace_id w s v)
        | inr room ↦ rw room (
            fill-IsWithin settings host workspace_id request scenarios task_set _
              (after_history-IsReady settings workspace_id w s (ground (arith, room)) v))
      ]

  admit-IsWithin :
      (workspace_id : ℕ) (w : Workspace F) (request : RunRequest F)
      (scenarios : List (ConcreteScenario F)) (task_set : TaskSet F) (s : WorkspaceStore F)
      → StoreIsWithin settings s
      → lookup s.workspaces workspace_id ≡ some w
      → StoreIsWithin settings (admit settings host workspace_id w request scenarios task_set s).1
  unfolding admit active_records is_hasty actives
  admit-IsWithin workspace_id w request scenarios task_set s v found =
      elim (Bool-cases (has_active_run s w)) [
        | inl busy ↦ rw busy v
        | inr idle ↦
            rw idle (elim (Bool-cases (leb settings.max_active_runs (length (active_records s)))) [
              | inl full ↦ rw full v
              | inr room ↦ rw room (
                  bind_leads (IsOpen settings workspace_id w) (StoreIsWithin settings)
                    (is_hasty settings host w request)
                    (λ hasty.
                      if hasty
                      then throw app_capacity
                      else prune_history settings workspace_id w
                        >> fill settings host workspace_id request scenarios task_set)
                    (too_soon-Keeps workspace_id w _ _) (λ t o. o.within)
                    (λ hasty t o. decide hasty t o) s
                    (record {
                      within = v;
                      found = found;
                      slot = ground (arith, room, length-select is_active (values s.runs));
                    }))
            ])
      ]
    where
      decide :
          (hasty : Bool) (t : WorkspaceStore F)
          → IsOpen settings workspace_id w t
          → StoreIsWithin settings
              ((if hasty
                  then throw app_capacity
                  else prune_history settings workspace_id w
                    >> fill settings host workspace_id request scenarios task_set)
                t).1
      decide true t o = o.within
      decide false t o = place-IsWithin workspace_id w request scenarios task_set t o

  pub register-IsWithin :
      (workspace_id : ℕ) (request : RunRequest F) (scenarios : List (ConcreteScenario F))
      (task_set : TaskSet F)
      → Keeps
          (StoreIsWithin settings)
          (register settings host workspace_id request scenarios task_set)
  unfolding register previous
  register-IsWithin workspace_id request scenarios task_set s v =
      get_workspace-Keeps (StoreIsWithin settings) workspace_id _ s v (λ w found. go w found _)
    where
      go :
          (w : Workspace F)
          → lookup s.workspaces workspace_id ≡ some w
          → (earlier : Result Code (Option (RunRecord F)))
          → StoreIsWithin settings
              (continue earlier
                (λ previous. elim previous [
                  | some r ↦ pure (r, false)
                  | none ↦ admit settings host workspace_id w request scenarios task_set
                ])
                s).1
      go w found (raise e) = v
      go w found (ok (some r)) = v
      go w found (ok none) = admit-IsWithin workspace_id w request scenarios task_set s v found
