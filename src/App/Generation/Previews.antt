-- ===== src/App/Generation/Previews.antt =====
-- generation.py and storage.py together: the store's interface to the expansion is filled by
-- `expand_scenarios`, and what a preview of a workspace then shows.
use Prim.Native.Nat.{ℕ, zero, suc, ◌≤◌}
use Prim.Native.String.{String}
use mathlib.Core.Path.{subst}
use value_stream_simulator.Prelude.{
  ◌≡◌, refl, ap, inl, inr, false, some, List, [], ◌∷◌, map, length, Option-cases,
}
use value_stream_simulator.Prelude.Exec.{Result, ok, raise, continue}
use value_stream_simulator.Prelude.Dict.{lookup}
use value_stream_simulator.Service.Schemas.{TaskInput, development}
use value_stream_simulator.App.Schemas.{
  Code, ValueSpec, constant, uniform, TaskSetSpec, ConcreteScenario, Preview, Workspace,
}
use value_stream_simulator.App.Settings.{AppSettings}
use value_stream_simulator.App.Storage.{WorkspaceStore, Host, Generator, get_workspace, or_raise}
use value_stream_simulator.App.Storage.Editing.{has_repeat, lift, make_preview, preview}
use value_stream_simulator.App.Generation.{Tools, expand_scenarios}
use value_stream_simulator.App.Generation.Bounds.{expand_scenarios-AreFew}

-- random.Random(derive_seed("tasks", seed)).uniform(a, b): the n-th draw of the generator of a seed.
-- `zero` is the time 0.0, and `task_name` the text of a number.
module _ {F : Type 0} (uniform_draw : ℕ → ℕ → F → F → F) (zero_time : F)
    (task_name : ℕ → String) where
  -- A value and the number of draws made.
  unfoldable pub sample : ℕ → ValueSpec F → ℕ → F × ℕ
  sample seed (constant v) drawn = (v, drawn)
  sample seed (uniform a b) drawn = (uniform_draw seed drawn a b, suc drawn)

  -- The tasks from an index, so many, with the draws made so far.
  unfoldable pub tasks_from : TaskSetSpec F → ℕ → ℕ → ℕ → List (TaskInput F)
  unfolding sample
  tasks_from spec i zero drawn = []
  tasks_from spec i (suc count) drawn =
      let (initial, drawn') = sample spec.seed spec.initial_value drawn in
      let (points, drawn'') = sample spec.seed spec.story_points drawn' in
      record {
        initial_value = initial;
        story_points = points;
        depreciation_rate = spec.depreciation_rate;
        task_name = some (task_name (suc i));
        creation_sim_t = zero_time;
        task_type = development;
        is_rework = false;
      }
      ∷ tasks_from spec (suc i) count drawn''

  unfoldable pub materialize_tasks : TaskSetSpec F → List (TaskInput F)
  unfolding tasks_from
  materialize_tasks spec = tasks_from spec 0 spec.count 0

  unfoldable pub generator : Tools F → Generator F
  unfolding materialize_tasks expand_scenarios
  generator tools = record {
    materialize_tasks = materialize_tasks;
    expand_scenarios = expand_scenarios tools;
  }

  length-tasks_from :
      (spec : TaskSetSpec F) (i count drawn : ℕ) → length (tasks_from spec i count drawn) ≡ count
  unfolding tasks_from
  length-tasks_from spec i zero drawn = refl
  length-tasks_from spec i (suc count) drawn = ap suc (length-tasks_from spec (suc i) count _)

  module _ (settings : AppSettings) (host : Host F) (tools : Tools F) where
    -- What a preview shows, if there is one.
    abbrev Shows : WorkspaceStore F → Result {0, 0} Code (Preview F) × WorkspaceStore F → Type 0
    Shows s (raise e, s') = s' ≡ s
    Shows s (ok p, s') =
        (p.count ≤ settings.max_models)
        × (p.count ≡ length p.scenarios)
        × (has_repeat (map (λ x. x.id) p.scenarios) ≡ false)
        × (s' ≡ s)

    make_preview-Shows :
        (w : Workspace F) (s : WorkspaceStore F) (ss : List (ConcreteScenario F))
        → length ss ≤ settings.max_models
        → has_repeat (map (λ x. x.id) ss) ≡ false
        → Shows s (make_preview settings host (generator tools) w ss s)
    unfolding make_preview
    make_preview-Shows w s ss few different = elim (Option-cases w.current_task_set) [
      | inl missing ↦ rw (missing, make_preview) refl
      | inr (id, found) ↦ rw (found, make_preview) (few, refl, different, refl)
    ]

    preview_lem :
        (workspace_id : ℕ) (s : WorkspaceStore F)
        → Shows s (preview settings host (generator tools) workspace_id s)
    unfolding preview get_workspace or_raise lift generator
    preview_lem workspace_id s = elim (Option-cases (lookup s.workspaces workspace_id)) [
      | inl missing ↦ rw missing refl
      | inr (w, found) ↦ rw found (go w (expand_scenarios tools w.definitions settings) refl)
    ]
      where
        go :
            (w : Workspace F) (made : Result {0, 0} Code (List (ConcreteScenario F)))
            → expand_scenarios tools w.definitions settings ≡ made
            → Shows s (continue made (make_preview settings host (generator tools) w) s)
        go w (raise e) same = refl
        go w (ok ss) same =
            let (few, different) = expand_scenarios-AreFew tools w.definitions settings ss same in
            make_preview-Shows w s ss few different

    -- Where a workspace has a preview, its scenarios are as many as it counts, no more than the
    -- models allowed, with different identifiers, and showing it changes nothing.
    pub preview-AreFew :
        (workspace_id : ℕ) (p : Preview F) (s s' : WorkspaceStore F)
        → preview settings host (generator tools) workspace_id s ≡ (ok p, s')
        → (p.count ≤ settings.max_models)
          × (p.count ≡ length p.scenarios)
          × (has_repeat (map (λ x. x.id) p.scenarios) ≡ false)
          × (s' ≡ s)
    preview-AreFew workspace_id p s s' shown = subst (Shows s) shown (preview_lem workspace_id s)
