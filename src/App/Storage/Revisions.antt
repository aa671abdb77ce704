-- ===== src/App/Storage/Revisions.antt =====
-- storage.py: the revision of a workspace orders the edits of several tabs.
use Prim.Native.Nat.{ℕ, suc}
use mathlib.Core.Path.{subst}
use value_stream_simulator.Prelude.{
  ◌≡◌, refl, ==_iff, inl, inr, false, some, List, map, Option-cases, Bool-cases, leb, ltb, length,
  ◌==◌, arith,
}
use value_stream_simulator.Prelude.Exec.{Result, ok, raise, continue, ◌>>=◌}
use value_stream_simulator.Prelude.Dict.{lookup, lookup-put_self}
use value_stream_simulator.App.Schemas.{
  Code, revision_conflict, ConcreteScenario, TaskSet, EditorRequest, Preview, Workspace,
}
use value_stream_simulator.App.Settings.{AppSettings}
use value_stream_simulator.App.Storage.{
  WorkspaceStore, Host, Generator, or_raise, save_workspace, get_workspace,
}
use value_stream_simulator.App.Storage.Access.{draw_id}
use value_stream_simulator.App.Storage.Editing.{
  has_repeat, lift, find, edited, task_set_for, make_preview, bytes_with, commit, save_editor,
}

module _ {F : Type 0} (settings : AppSettings) (host : Host F) (generator : Generator F) where
  -- The workspace has this revision.
  unfoldable pub HasRevision : ℕ → ℕ → WorkspaceStore F → Type 0
  HasRevision workspace_id n s =
      (w : Workspace F) × (lookup s.workspaces workspace_id ≡ some w) × (w.revision ≡ n)

  stale_lem :
      (workspace_id n : ℕ) (request : EditorRequest F) (s : WorkspaceStore F)
      → HasRevision workspace_id n s
      → (request.expected_revision == n) ≡ false
      → save_editor settings host generator workspace_id request s ≡ (raise revision_conflict, s)
  unfolding save_editor get_workspace or_raise HasRevision
  stale_lem workspace_id n request s (w, found, revision) stale = rw (found, revision, stale) refl

  -- Where the edit succeeds, the workspace and the preview have the next revision.
  abbrev Saved : ℕ → ℕ → Result Code (Preview F) × WorkspaceStore F → Type 0
  Saved workspace_id n (raise e, s) = Unit
  Saved workspace_id n (ok p, s) =
      HasRevision workspace_id (suc n) s × (p.workspace_revision ≡ suc n)

  commit-Saved :
      (workspace_id : ℕ) (request : EditorRequest F) (w : Workspace F) (task_set : TaskSet F)
      (scenarios : List (ConcreteScenario F)) (s : WorkspaceStore F)
      → Saved workspace_id w.revision
          (commit settings host generator workspace_id (edited request task_set w) scenarios s)
  unfolding commit edited make_preview save_workspace HasRevision
  commit-Saved workspace_id request w task_set scenarios s =
      elim (Bool-cases (
        ltb settings.max_input_bytes
          (bytes_with settings host generator (edited request task_set w) s))) [
            | inl large ↦ rw large tt
            | inr fits ↦ rw fits (
              ((edited request task_set w), lookup-put_self s.workspaces workspace_id _, refl),
              refl,
            )
          ]

  save-Saved :
      (workspace_id : ℕ) (request : EditorRequest F) (w : Workspace F)
      (scenarios : List (ConcreteScenario F)) (s : WorkspaceStore F)
      → Saved workspace_id w.revision (
          (task_set_for settings host generator request.task_spec w >>= λ task_set.
          commit settings host generator workspace_id (edited request task_set w) scenarios)
            s)
  unfolding task_set_for draw_id
  save-Saved workspace_id request w scenarios s =
      let same = λ (t : TaskSet F). host.spec_digest t.spec == host.spec_digest request.task_spec in
      elim (Option-cases (find same w.task_sets)) [
        | inr (t, found) ↦
            rw (found, task_set_for) (commit-Saved workspace_id request w t scenarios s)
        | inl missing ↦ elim (Bool-cases (leb settings.max_task_sets (length w.task_sets))) [
          | inl full ↦ rw (missing, full, task_set_for) tt
          | inr room ↦
              rw (missing, room, task_set_for)
                (commit-Saved workspace_id request w _ scenarios
                  (record s { ids_drawn = suc s.ids_drawn }))
        ]
      ]

  save_editor-Saved :
      (workspace_id : ℕ) (request : EditorRequest F) (s : WorkspaceStore F)
      → Saved workspace_id request.expected_revision
          (save_editor settings host generator workspace_id request s)
  unfolding save_editor get_workspace or_raise lift
  save_editor-Saved workspace_id request s =
      elim (Option-cases (lookup s.workspaces workspace_id)) [
        | inl missing ↦ rw missing tt
        | inr (w, found) ↦ rw found (elim (Bool-cases (request.expected_revision == w.revision)) [
          | inr stale ↦ rw stale tt
          | inl current ↦
              rw current (elim (Bool-cases (ltb settings.max_tasks request.task_spec.count)) [
                | inl large ↦ rw large tt
                | inr fits ↦
                    rw fits (elim (Bool-cases (has_repeat (map (λ d. d.id) request.definitions))) [
                      | inl repeated ↦ rw repeated tt
                      | inr distinct ↦ rw distinct (
                          go w ((==_iff request.expected_revision w.revision).0 current)
                            (generator.expand_scenarios request.definitions settings))
                    ])
              ])
        ])
      ]
    where
      go :
          (w : Workspace F)
          → request.expected_revision ≡ w.revision
          → (made : Result Code (List (ConcreteScenario F)))
          → Saved workspace_id request.expected_revision (
              continue made
                (λ scenarios.
                  task_set_for settings host generator request.task_spec w >>= λ task_set.
                  commit settings host generator workspace_id (edited request task_set w) scenarios)
                s)
      go w e (raise c) = tt
      go w e (ok scenarios) = rw e (save-Saved workspace_id request w scenarios s)

  -- Of two edits made on the same revision of a workspace, where the first succeeds, its preview
  -- has the next revision, and the second is refused and changes nothing.
  pub second_edit-refused :
      (workspace_id : ℕ) (first second : EditorRequest F) (p : Preview F) (s s' : WorkspaceStore F)
      → save_editor settings host generator workspace_id first s ≡ (ok p, s')
      → second.expected_revision ≡ first.expected_revision
      → (p.workspace_revision ≡ suc first.expected_revision)
        × (save_editor settings host generator workspace_id second s'
            ≡ (raise revision_conflict, s'))
  second_edit-refused workspace_id first second p s s' saved same =
      let (next, shown) =
        subst (Saved workspace_id first.expected_revision) saved
          (save_editor-Saved workspace_id first s) in
      (shown, stale_lem workspace_id _ second s' next (ground (arith, same)))
