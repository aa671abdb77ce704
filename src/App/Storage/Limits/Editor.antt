-- ===== src/App/Storage/Limits/Editor.antt =====
-- storage.py: `save_editor`, `preview` and `comparison` keep the limits.
use Prim.Native.Nat.{ℕ, suc, ◌≤◌}
use mathlib.Core.Path.{subst}
use mathlib.Core.Option.{none-ne-some, some-injective}
use value_stream_simulator.Prelude.{
  ◌≡◌, refl, ==_refl, inl, inr, Bool, true, false, not, ◌&&◌, Option, none, some, List, [], ◌∷◌,
  length, length-append, map, any, Option-cases, Bool-cases, ltb, leb, ◌==◌, arith,
}
use value_stream_simulator.Prelude.Exec.{Result, ok, raise, continue, ◌>>=◌, ◌>>◌}
use value_stream_simulator.Prelude.Keeps.{Keeps}
use value_stream_simulator.Prelude.Dict.{lookup, put, remove, All-lookup}
use value_stream_simulator.App.Schemas.{
  Code, is_terminal, ConcreteScenario, TaskSet, EditorRequest, Workspace, ComparisonAction, pin,
  unpin, baseline, delete,
}
use value_stream_simulator.App.Settings.{AppSettings}
use value_stream_simulator.App.Storage.{
  RunRecord, Method, WorkspaceStore, Host, Generator, is_active, or_raise, save_workspace,
  get_workspace,
}
use value_stream_simulator.App.Storage.Pruning.{prune_cache}
use value_stream_simulator.App.Storage.Access.{draw_id}
use value_stream_simulator.App.Storage.Editing.{
  has_repeat, lift, find, edited, with_baseline, without_run, task_set_for, make_preview, preview,
  bytes_with, commit, save_editor, pins, set_pinned, act, lacks_results, comparison,
}
use value_stream_simulator.App.Storage.Memory.{remove-FitsIn}
use value_stream_simulator.App.Storage.Limits.Methods.{length-select-le}
use value_stream_simulator.App.Storage.Limits.{
  IsShort, StoreIsWithin, save_workspace-IsWithin, save_run-IsWithin, pruned-IsWithin,
  get_workspace-Keeps, find_run-Keeps,
}

any-find :
    {F : Type 0} (p : TaskSet F → Bool) (ts : List (TaskSet F)) {t : TaskSet F}
    → find p ts ≡ some t
    → any (λ u. t.id == u.id) ts ≡ true
unfolding find
any-find p [] h = absurd (none-ne-some _ h)
any-find {F} p (u ∷ ts) {t} h = elim (Bool-cases (p u)) [
  | inl here ↦
      subst (λ (x : TaskSet F). any (λ z. x.id == z.id) (u ∷ ts) ≡ true)
        (some-injective _ _ (rw here at h)) (rw (==_refl u.id) refl)
  | inr later ↦ ground (arith, any-find p ts (rw later at h))
]

module _ {F : Type 0} (settings : AppSettings) (host : Host F) (generator : Generator F) where
  make_preview-Keeps :
      (P : WorkspaceStore F → Type 0) (w : Workspace F) (scenarios : List (ConcreteScenario F))
      → Keeps P (make_preview settings host generator w scenarios)
  unfolding make_preview
  make_preview-Keeps P w scenarios s v = elim (Option-cases w.current_task_set) [
    | inl missing ↦ rw (missing, make_preview) v
    | inr (id, found) ↦ rw (found, make_preview) v
  ]

  pub preview-IsWithin :
      (workspace_id : ℕ)
      → Keeps (StoreIsWithin settings) (preview settings host generator workspace_id)
  unfolding preview lift
  preview-IsWithin workspace_id s v =
      get_workspace-Keeps (StoreIsWithin settings) workspace_id _ s v
        (λ w found. go w (generator.expand_scenarios w.definitions settings))
    where
      go :
          (w : Workspace F) (made : Result Code (List (ConcreteScenario F)))
          → StoreIsWithin settings (continue made (make_preview settings host generator w) s).1
      go w (ok scenarios) = make_preview-Keeps (StoreIsWithin settings) w scenarios s v
      go w (raise e) = v

  act-IsWithin :
      (action : ComparisonAction) (workspace_id run_id : ℕ) (w : Workspace F) (r : RunRecord F)
      (s : WorkspaceStore F)
      → lookup s.workspaces workspace_id ≡ some w
      → lookup s.runs run_id ≡ some r
      → StoreIsWithin settings s
      → StoreIsWithin settings (act settings host generator action workspace_id run_id w r s).1
  unfolding act set_pinned with_baseline without_run save_workspace prune_cache is_active
  act-IsWithin pin workspace_id run_id w r s listed found v =
      elim (Bool-cases
        (not r.status.pinned && leb settings.max_pins (pins settings host generator s w))) [
          | inl full ↦ rw full v
          | inr room ↦
              rw room (save_run-IsWithin settings run_id r _ s found (omega arith) (omega arith) v)
        ]
  act-IsWithin unpin workspace_id run_id w r s listed found v =
      save_run-IsWithin settings run_id r _ s found (omega arith) (omega arith) v
  act-IsWithin baseline workspace_id run_id w r s listed found v =
      save_workspace-IsWithin settings workspace_id w (with_baseline run_id r s.runs w) s listed
        (All-lookup (IsShort settings) s.workspaces workspace_id v.short listed) v
  act-IsWithin delete workspace_id run_id w r s listed found v =
      let short = All-lookup (IsShort settings) s.workspaces workspace_id v.short listed in
      let fewer = length-select-le (λ x. not (x == run_id)) w.runs in
      let v' =
        save_workspace-IsWithin settings workspace_id w (without_run run_id w) s listed
          (short.0, omega (arith, short.1, fewer)) v in
      pruned-IsWithin settings 0 []
        (record s {
          runs = remove run_id s.runs;
          workspaces = put s.workspaces workspace_id (without_run run_id w);
        })
        (record {
          few = v'.few;
          short = v'.short;
          fits = remove-FitsIn _ _ s.cache run_id s.runs v.fits;
        })

  commit-IsWithin :
      (workspace_id : ℕ) (w w' : Workspace F) (scenarios : List (ConcreteScenario F))
      (s : WorkspaceStore F)
      → lookup s.workspaces workspace_id ≡ some w
      → IsShort settings w'
      → StoreIsWithin settings s
      → StoreIsWithin settings (commit settings host generator workspace_id w' scenarios s).1
  unfolding commit save_workspace
  commit-IsWithin workspace_id w w' scenarios s found short v =
      elim (Bool-cases (ltb settings.max_input_bytes (bytes_with settings host generator w' s))) [
        | inl large ↦ rw large v
        | inr fits ↦ rw fits (
            make_preview-Keeps (StoreIsWithin settings) w' scenarios
              (record s { workspaces = put s.workspaces workspace_id w' })
              (save_workspace-IsWithin settings workspace_id w w' s found short v))
      ]

  or_raise-keeps :
      {A : Type 0} (e : Code) (found : Option A) (s : WorkspaceStore F)
      → StoreIsWithin settings s
      → StoreIsWithin settings (or_raise e found s).1
  unfolding or_raise
  or_raise-keeps e none s v = v
  or_raise-keeps e (some a) s v = v

  then_get-Keeps :
      (workspace_id : ℕ) (m : Method F Unit) (s : WorkspaceStore F)
      → StoreIsWithin settings (m s).1
      → StoreIsWithin settings ((m >> get_workspace workspace_id) s).1
  unfolding get_workspace
  then_get-Keeps workspace_id m s = go (m s).0 (m s).1
    where
      go :
          (r : Result Code Unit) (t : WorkspaceStore F)
          → StoreIsWithin settings t
          → StoreIsWithin settings (continue r (λ _. get_workspace workspace_id) t).1
      go (raise e) t v = v
      go (ok _) t v = or_raise-keeps _ (lookup t.workspaces workspace_id) t v

  pub comparison-IsWithin :
      (workspace_id run_id : ℕ) (action : ComparisonAction)
      → Keeps
          (StoreIsWithin settings)
          (comparison settings host generator workspace_id run_id action)
  unfolding comparison
  comparison-IsWithin workspace_id run_id action s v =
      get_workspace-Keeps (StoreIsWithin settings) workspace_id _ s v (λ w listed.
        find_run-Keeps (StoreIsWithin settings) workspace_id run_id _ s v (λ r found.
          elim (Bool-cases (is_terminal r.status.state)) [
            | inr active ↦ rw active v
            | inl ended ↦
                rw ended (elim (Bool-cases (lacks_results settings host generator action r)) [
                  | inl lacks ↦ rw lacks v
                  | inr has ↦ rw has (
                      then_get-Keeps workspace_id
                        (act settings host generator action workspace_id run_id w r) s
                        (act-IsWithin action workspace_id run_id w r s listed found v))
                ])
          ]))

  -- What follows in `save_editor` once the task set is known.
  edited-IsWithin :
      (workspace_id : ℕ) (request : EditorRequest F) (w : Workspace F) (task_set : TaskSet F)
      (scenarios : List (ConcreteScenario F)) (s : WorkspaceStore F)
      → lookup s.workspaces workspace_id ≡ some w
      → length (edited request task_set w).task_sets ≤ settings.max_task_sets
      → StoreIsWithin settings s
      → StoreIsWithin settings
          (commit settings host generator workspace_id (edited request task_set w) scenarios s).1
  unfolding edited
  edited-IsWithin workspace_id request w task_set scenarios s found sets v =
      let short = All-lookup (IsShort settings) s.workspaces workspace_id v.short found in
      commit-IsWithin workspace_id w (edited request task_set w) scenarios s found (sets, short.1) v

  length-edited :
      (request : EditorRequest F) (task_set : TaskSet F) (w : Workspace F)
      → leb settings.max_task_sets (length w.task_sets) ≡ false
      → length (edited request task_set w).task_sets ≤ settings.max_task_sets
  unfolding edited
  length-edited request task_set w room =
      ground (arith, room, length-append w.task_sets (task_set ∷ []))

  length-edited_found :
      (request : EditorRequest F) (p : TaskSet F → Bool) (w : Workspace F) {task_set : TaskSet F}
      → find p w.task_sets ≡ some task_set
      → length (edited request task_set w).task_sets ≡ length w.task_sets
  unfolding edited
  length-edited_found request p w found = rw (any-find p w.task_sets found, edited) refl

  save_with :
      (workspace_id : ℕ) (request : EditorRequest F) (w : Workspace F)
      (scenarios : List (ConcreteScenario F)) (s : WorkspaceStore F)
      → lookup s.workspaces workspace_id ≡ some w
      → StoreIsWithin settings s
      → StoreIsWithin settings
          ((task_set_for settings host generator request.task_spec w >>= λ task_set.
              commit settings host generator workspace_id (edited request task_set w) scenarios)
            s).1
  unfolding task_set_for draw_id
  save_with workspace_id request w scenarios s listed v =
      let same = λ (t : TaskSet F). host.spec_digest t.spec == host.spec_digest request.task_spec in
      let short = All-lookup (IsShort settings) s.workspaces workspace_id v.short listed in
      elim (Option-cases (find same w.task_sets)) [
        | inr (t, found) ↦
            rw (found, task_set_for)
              (edited-IsWithin workspace_id request w t scenarios s listed
                (omega (arith, short.0, length-edited_found request same w found)) v)
        | inl missing ↦
            rw (missing, task_set_for)
              (elim (Bool-cases (leb settings.max_task_sets (length w.task_sets))) [
                | inl full ↦ rw full v
                | inr room ↦ rw room (
                    edited-IsWithin workspace_id request w _ scenarios
                      (record s { ids_drawn = suc s.ids_drawn }) listed
                      (length-edited request _ w room)
                      (record { few = v.few; short = v.short; fits = v.fits }))
              ])
      ]

  pub save_editor-IsWithin :
      (workspace_id : ℕ) (request : EditorRequest F)
      → Keeps (StoreIsWithin settings) (save_editor settings host generator workspace_id request)
  unfolding save_editor lift
  save_editor-IsWithin workspace_id request s v =
      get_workspace-Keeps (StoreIsWithin settings) workspace_id _ s v (λ w found.
        elim (Bool-cases (request.expected_revision == w.revision)) [
          | inr stale ↦ rw stale v
          | inl current ↦
              rw current (elim (Bool-cases (ltb settings.max_tasks request.task_spec.count)) [
                | inl large ↦ rw large v
                | inr fits ↦
                    rw fits (elim (Bool-cases (has_repeat (map (λ d. d.id) request.definitions))) [
                      | inl repeated ↦ rw repeated v
                      | inr distinct ↦
                          rw distinct
                            (go w found (generator.expand_scenarios request.definitions settings))
                    ])
              ])
        ])
    where
      go :
          (w : Workspace F)
          → lookup s.workspaces workspace_id ≡ some w
          → (made : Result Code (List (ConcreteScenario F)))
          → StoreIsWithin settings
              (continue made
                (λ scenarios.
                  task_set_for settings host generator request.task_spec w >>= λ task_set.
                  commit settings host generator workspace_id (edited request task_set w) scenarios)
                s).1
      go w found (raise e) = v
      go w found (ok scenarios) = save_with workspace_id request w scenarios s found v
