-- ===== src/App/Storage/Limits/Pruned.antt =====
-- storage.py: what is ready for one more run stays so while `prune_cache` and `prune_for_capacity`
-- remove runs and results.
use Prim.Native.Nat.{ℕ, ◌≤◌, ◌<◌}
use value_stream_simulator.Prelude.{
  ◌≡◌, refl, ==_iff, inl, inr, Bool, true, false, some, List, [], ◌∷◌, length, select, count_if,
  Option-cases, Bool-cases, if_both, ◌==◌, if◌then◌else◌, arith,
}
use mathlib.Core.Path.{subst}
use mathlib.Core.Option.{some-injective}
use value_stream_simulator.Prelude.Dict.{
  Dict, lookup, remove, lookup-put, sum_of-remove, All-lookup,
}
use value_stream_simulator.App.Schemas.{Workspace}
use value_stream_simulator.App.Settings.{AppSettings}
use value_stream_simulator.App.Storage.{
  RunRecord, WorkspaceStore, is_active, remove_first, save_workspace,
}
use value_stream_simulator.App.Storage.Pruning.{
  can_drop, drop_runs, pruned, shortened, drop_run, drop_candidates,
}
use value_stream_simulator.App.Storage.Memory.{actives, remove-FitsIn}
use value_stream_simulator.App.Storage.Limits.{
  IsShort, StoreIsWithin, save_workspace-IsWithin, pruned-IsWithin,
}

length-remove_first : (x : ℕ) (xs : List ℕ) → length (remove_first x xs) ≤ length xs
unfolding remove_first
length-remove_first x [] = omega arith
length-remove_first x (y ∷ ys) = ground (arith, length-remove_first x ys)

≤-trans : {a b c : ℕ} → a ≤ b → b ≤ c → a ≤ c
≤-trans h k = omega arith

length-if_removed :
    (b : Bool) (x : ℕ) (xs : List ℕ) → length (if b then remove_first x xs else xs) ≤ length xs
length-if_removed true x xs = length-remove_first x xs
length-if_removed false x xs = omega arith

pub length-drop_runs :
    {F : Type 0} (limit : ℕ) (w : Workspace F) (ids listed : List ℕ) (runs : Dict (RunRecord F))
    → length (drop_runs limit w ids listed runs).0 ≤ length listed
unfolding drop_runs
length-drop_runs limit w [] listed runs = omega arith
length-drop_runs {F} limit w (run_id ∷ ids) listed runs =
    if_both (λ (left : List ℕ × Dict (RunRecord F)). length left.0 ≤ length listed) _
      {x = (listed, runs)} (omega arith)
      (≤-trans (length-drop_runs limit w ids _ _)
        (length-if_removed (can_drop w runs run_id) run_id listed))

pub length-select : {A : Type 0} (p : A → Bool) (xs : List A) → length (select p xs) ≡ count_if p xs
length-select p [] = refl
length-select p (x ∷ xs) = ground (arith, length-select p xs)

module _ {F : Type 0} (settings : AppSettings) where
  -- The workspace may list one run more, and one run more may be active.
  pub record IsReady (workspace_id : ℕ) (s : WorkspaceStore F) : Type 0 where
    pub within : StoreIsWithin settings s
    pub room :
        (w : Workspace F)
        → lookup s.workspaces workspace_id ≡ some w
        → length w.runs < settings.max_retained_runs
    pub slot : actives s.runs < settings.max_active_runs

  pub actives-remove :
      (run_id : ℕ) (runs : Dict (RunRecord F))
      → actives runs < settings.max_active_runs
      → actives (remove run_id runs) < settings.max_active_runs
  unfolding actives
  actives-remove run_id runs slot =
      let count = sum_of-remove (λ (r : RunRecord F). if is_active r then 1 else 0) runs run_id in
      omega (arith, slot, count)

  -- A workspace that lists no more runs than it did.
  shortened-IsReady :
      (workspace_id target : ℕ) (w w' : Workspace F) (s : WorkspaceStore F)
      → lookup s.workspaces target ≡ some w
      → length w'.runs ≤ length w.runs
      → length w'.task_sets ≤ length w.task_sets
      → IsReady workspace_id s
      → IsReady workspace_id (save_workspace target w' s).1
  unfolding save_workspace
  shortened-IsReady workspace_id target w w' s found fewer sets v =
      let short = All-lookup (IsShort settings) s.workspaces target v.within.short found in
      record {
        within =
            save_workspace-IsWithin settings target w w' s found
              (omega (arith, short.0, sets), omega (arith, short.1, fewer)) v.within;
        room = λ x e. elim (Bool-cases (target == workspace_id)) [
          | inl same ↦
              let here = rw (lookup-put s.workspaces target workspace_id w', same) at e in
              let old =
                subst (λ k. lookup s.workspaces k ≡ some w) ((==_iff target workspace_id).0 same)
                  found in
              subst (λ y. length y.runs < settings.max_retained_runs) (some-injective _ _ here)
                (omega (arith, fewer, v.room w old))
          | inr other ↦ v.room x (rw (lookup-put s.workspaces target workspace_id w', other) at e)
        ];
        slot = v.slot;
      }

  shortened_lem :
      (workspace_id target run_id : ℕ) (s : WorkspaceStore F)
      → IsReady workspace_id s
      → IsReady workspace_id (record s { workspaces = shortened target run_id s.workspaces })
  unfolding shortened save_workspace
  shortened_lem workspace_id target run_id s v = elim (Option-cases (lookup s.workspaces target)) [
    | inl missing ↦ rw (missing, shortened) v
    | inr (w, found) ↦
        rw (found, shortened)
          (shortened-IsReady workspace_id target w (record w { runs = remove_first run_id w.runs })
            s found (length-remove_first run_id w.runs) (omega arith) v)
  ]

  drop_run-IsReady :
      (workspace_id target run_id : ℕ) (s : WorkspaceStore F)
      → IsReady workspace_id s
      → IsReady workspace_id (drop_run target run_id s)
  unfolding drop_run
  drop_run-IsReady workspace_id target run_id s v =
      let v' = shortened_lem workspace_id target run_id s v in
      record {
        within = record {
          few = v'.within.few;
          short = v'.within.short;
          fits = remove-FitsIn _ _ s.cache run_id s.runs v.within.fits;
        };
        room = v'.room;
        slot = actives-remove run_id s.runs v.slot;
      }

  pub pruned-IsReady :
      (workspace_id required : ℕ) (protect : List ℕ) (s : WorkspaceStore F)
      → IsReady workspace_id s
      → IsReady workspace_id (pruned settings required protect s)
  unfolding pruned
  pruned-IsReady workspace_id required protect s v = record {
    within = pruned-IsWithin settings required protect s v.within;
    room = v.room;
    slot = v.slot;
  }

  pub drop_candidates-IsReady :
      (workspace_id required : ℕ) (protect : List ℕ) (found : List (ℕ × (ℕ × ℕ)))
      (s : WorkspaceStore F)
      → IsReady workspace_id s
      → IsReady workspace_id (drop_candidates settings required protect found s)
  unfolding drop_candidates
  drop_candidates-IsReady workspace_id required protect [] s v = v
  drop_candidates-IsReady workspace_id required protect ((age, (target, run_id)) ∷ rest) s v =
      if_both (IsReady workspace_id) _ v (
        drop_candidates-IsReady workspace_id required protect rest _ (
          pruned-IsReady workspace_id required protect _
            (drop_run-IsReady workspace_id target run_id s v)))
