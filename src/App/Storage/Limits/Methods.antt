-- ===== src/App/Storage/Limits/Methods.antt =====
-- storage.py: `create`, the deletions, the editor, the results and the comparisons keep the limits.
use Prim.Native.Nat.{ℕ, suc, ◌≤◌}
use value_stream_simulator.Prelude.{
  inl, inr, Bool, not, ◌||◌, List, [], ◌∷◌, length, select, any, Bool-cases, leb, ◌==◌, arith,
}
use value_stream_simulator.Prelude.Keeps.{Keeps}
use value_stream_simulator.Prelude.Dict.{
  Dict, lookup, remove, length-put, length-remove, All-lookup, All-put, All-remove,
}
use value_stream_simulator.App.Settings.{AppSettings}
use value_stream_simulator.App.Storage.{RunRecord, Host, is_just, save_workspace, has_active_run}
use value_stream_simulator.App.Storage.Pruning.{prune_cache}
use value_stream_simulator.App.Storage.Access.{
  draw_id, new_workspace, remove_all, create, delete_workspace, is_used, delete_task_set,
  cached_result,
}
use value_stream_simulator.App.Storage.Memory.{FitsIn, remove-FitsIn}
use value_stream_simulator.App.Storage.Limits.{
  IsShort, StoreIsWithin, save_workspace-IsWithin, pruned-IsWithin, moved-IsWithin,
  get_workspace-Keeps, or_raise-Keeps,
}

pub length-select-le : {A : Type 0} (p : A → Bool) (xs : List A) → length (select p xs) ≤ length xs
length-select-le p [] = omega arith
length-select-le p (x ∷ xs) = ground (arith, length-select-le p xs)

module _ {F : Type 0} where
  remove_all-FitsIn :
      (limit active : ℕ) (cache : _) (ids : List ℕ) (runs : Dict (RunRecord F))
      → FitsIn limit active runs cache
      → FitsIn limit active (remove_all ids runs) cache
  unfolding remove_all
  remove_all-FitsIn limit active cache [] runs h = h
  remove_all-FitsIn limit active cache (k ∷ ks) runs h =
      remove_all-FitsIn limit active cache ks (remove k runs)
        (remove-FitsIn limit active cache k runs h)

module _ {F : Type 0} (settings : AppSettings) (host : Host F) where
  pub create-IsWithin : Keeps (StoreIsWithin settings) (create settings host)
  unfolding create draw_id save_workspace new_workspace
  create-IsWithin s v = elim (Bool-cases (leb settings.max_workspaces (length s.workspaces))) [
    | inl full ↦ rw full v
    | inr room ↦ rw room (record {
      few = ground (
        arith,
        room,
        length-put s.workspaces (host.uuid4 s.ids_drawn)
            (new_workspace host (host.uuid4 s.ids_drawn) (host.uuid4 (suc s.ids_drawn))),
      );
      short = All-put (IsShort settings) s.workspaces _ _ v.short (omega arith, omega arith);
      fits = v.fits;
    })
  ]

  pub delete_workspace-IsWithin :
      (workspace_id : ℕ)
      → Keeps (StoreIsWithin settings) (delete_workspace settings host workspace_id)
  unfolding delete_workspace prune_cache
  delete_workspace-IsWithin workspace_id s v =
      get_workspace-Keeps (StoreIsWithin settings) workspace_id _ s v (λ w found.
        elim (Bool-cases (has_active_run s w)) [
          | inl busy ↦ rw busy v
          | inr idle ↦ rw idle (
              pruned-IsWithin settings 0 []
                (record s {
                  runs = remove_all w.runs s.runs;
                  workspaces = remove workspace_id s.workspaces;
                })
                (record {
                  few = omega (arith, v.few, length-remove s.workspaces workspace_id);
                  short = All-remove (IsShort settings) s.workspaces workspace_id v.short;
                  fits = remove_all-FitsIn _ _ s.cache w.runs s.runs v.fits;
                }))
        ])

  pub delete_task_set-IsWithin :
      (workspace_id task_set_id expected_revision : ℕ)
      → Keeps
          (StoreIsWithin settings)
          (delete_task_set settings host workspace_id task_set_id expected_revision)
  unfolding delete_task_set
  delete_task_set-IsWithin workspace_id task_set_id expected_revision s v =
      get_workspace-Keeps (StoreIsWithin settings) workspace_id _ s v (λ w found.
        elim (Bool-cases (w.revision == expected_revision)) [
          | inr stale ↦ rw stale v
          | inl current ↦
              rw current
                (elim (Bool-cases (
                  is_just task_set_id w.current_task_set
                  || is_used settings host s w task_set_id)) [
                    | inl in_use ↦ rw in_use v
                    | inr free ↦
                        rw free (elim (Bool-cases (any (λ t. t.id == task_set_id) w.task_sets)) [
                          | inr unknown ↦ rw unknown v
                          | inl known ↦ rw known (
                              let short =
                                All-lookup (IsShort settings) s.workspaces workspace_id v.short
                                  found in
                              let fewer =
                                length-select-le (λ t. not (t.id == task_set_id)) w.task_sets in
                              save_workspace-IsWithin settings workspace_id w _ s found
                                (omega (arith, short.0, fewer), short.1) v)
                        ])
                  ])
        ])

  pub cached_result-IsWithin :
      (key : ℕ) → Keeps (StoreIsWithin settings) (cached_result settings host key)
  unfolding cached_result
  cached_result-IsWithin key s v =
      or_raise-Keeps (StoreIsWithin settings) _ (lookup s.cache key) _ s v
        (λ entry found. moved-IsWithin settings key s v)
