-- ===== src/App/Generation/Examples.antt =====
-- generation.py: two definitions, of which the second repeats a combination of the first.
use Prim.Native.Nat.{ℕ, ◌+◌, ◌-◌, ◌*◌, ◌/◌, ◌≤◌}
use Prim.Native.String.{String}
use value_stream_simulator.Prelude.{
  ◌≡◌, refl, Bool, true, false, some, List, [], ◌∷◌, All, map, length, ◌==◌,
}
use value_stream_simulator.Prelude.Exec.{Result, ok, raise}
use value_stream_simulator.App.Schemas.{
  Code, limit_exceeded, SweepValue, number, null, explicit, ModelSettings, ScenarioDefinition,
  ConcreteScenario, Preview,
}
use value_stream_simulator.Prelude.Dict.{lookup, put, values}
use value_stream_simulator.App.Storage.{WorkspaceStore, Generator, or_raise, new_store}
use value_stream_simulator.App.Storage.Access.{create, new_workspace}
use value_stream_simulator.App.Storage.Calls.{create_call, perform, perform_all}
use value_stream_simulator.App.Storage.Editing.{has_repeat, preview, save_editor}
use value_stream_simulator.App.Storage.Examples.{limits, host, edit, settings}
use value_stream_simulator.App.Generation.{Tools, axis_values, expand_scenarios}
use value_stream_simulator.App.Generation.Previews.{generator, preview-AreFew}
use value_stream_simulator.App.Generation.Teams.{HasFew, expand_scenarios-HaveFew}
use value_stream_simulator.App.Generation.Bounds.{length-axis_values, expand_scenarios-AreFew}

abbrev same : SweepValue ℕ → SweepValue ℕ → Bool
same (number a) (number b) = a == b
same null null = true
same _ _ = false

-- A replaced property is the size of the team; it is the identifier of the scenario as well.
abbrev with_team : List (String × SweepValue ℕ) → ModelSettings ℕ
with_team ((name, number k) ∷ []) = record settings { team_size = k }
with_team _ = settings

abbrev tools : Tools ℕ
tools = record {
  starts_after_end = λ r. false;
  steps = λ r. 2;
  step_value = λ r i. i;
  same_value = same;
  is_property = λ name. true;
  sorted_before = λ a b. true;
  revalidate = λ s changed. some (with_team changed);
  scenario_id = λ id s. s.team_size;
  scenario_name = λ name names s. name;
  execution_seed = λ seed id. seed + id;
  same_number = λ a b. a == b;
  add = λ a b. a + b;
  sub = λ a b. a - b;
  mul = λ a b. a * b;
  half = λ a. a / 2;
  ratio = λ i n. i / n;
  accepted_draw = λ s seed i. s.efficiency_min;
  developer_name = λ n. "Developer";
}

abbrev definition : ℕ → ℕ → ScenarioDefinition ℕ
definition a b = record {
  id = 1;
  name = "Delivery model";
  revision = 1;
  settings = settings;
  sweeps = ("team_size", explicit (number a ∷ number b ∷ number a ∷ [])) ∷ [];
  team_seed = 123;
  execution_seed = 456;
}

abbrev made : List ℕ
made = 1 ∷ 2 ∷ 3 ∷ []

abbrev ids : Result {0, 0} Code (List (ConcreteScenario ℕ)) → List ℕ
ids (ok ss) = map (λ s. s.id) ss
ids (raise e) = []

abbrev scenarios : List (ConcreteScenario ℕ)
scenarios = from (expand_scenarios tools (definition 1 2 ∷ definition 2 3 ∷ []) limits)
  where
    from : Result {0, 0} Code (List (ConcreteScenario ℕ)) → List (ConcreteScenario ℕ)
    from (ok ss) = ss
    from (raise e) = []

expanded_ids : ids (expand_scenarios tools (definition 1 2 ∷ definition 2 3 ∷ []) limits) ≡ made
unfolding expand_scenarios
expanded_ids = refl

too_many :
    expand_scenarios tools (definition 1 2 ∷ definition 3 4 ∷ definition 5 6 ∷ []) limits
    ≡ raise limit_exceeded
unfolding expand_scenarios
too_many = refl

length-axis_values_example : (1 ≤ 2) × (2 ≤ 4)
unfolding axis_values
length-axis_values_example =
    length-axis_values tools (explicit (number 5 ∷ number 6 ∷ number 5 ∷ [])) 4
      (number 5 ∷ number 6 ∷ []) refl

expand_scenarios-AreFew_example :
    (length scenarios ≤ 4) × (has_repeat (map (λ s. s.id) scenarios) ≡ false)
unfolding expand_scenarios
expand_scenarios-AreFew_example =
    expand_scenarios-AreFew tools (definition 1 2 ∷ definition 2 3 ∷ []) limits scenarios refl

expand_scenarios-HaveFew_example : All (λ s. HasFew 9 s.model) scenarios
unfolding expand_scenarios
expand_scenarios-HaveFew_example =
    expand_scenarios-HaveFew tools (definition 1 2 ∷ definition 2 3 ∷ []) limits scenarios refl

-- A draw is its lower bound.
abbrev tasks_and_scenarios : Generator ℕ
tasks_and_scenarios = generator (λ seed n a b. a) 0 (λ n. "") tools

abbrev edited : WorkspaceStore ℕ
edited =
    (save_editor limits host tasks_and_scenarios 0
      (record (edit 0 42) {
        definitions = definition 1 2 ∷ record (definition 2 3) { id = 2 } ∷ [];
      })
      (perform_all limits host tasks_and_scenarios (create_call ∷ []) new_store)).1

abbrev shown : Preview ℕ
shown = from (preview limits host tasks_and_scenarios 0 edited).0
  where
    from : Result {0, 0} Code (Preview ℕ) → Preview ℕ
    from (ok p) = p
    from (raise e) = record {
      digest = 0;
      task_set_id = 0;
      workspace_revision = 0;
      scenarios = [];
      count = 0;
    }

shown-count : shown.count ≡ 3
unfolding preview save_editor perform_all or_raise lookup perform create new_store put new_workspace
    has_repeat values generator
shown-count = refl

preview-AreFew_example :
    (shown.count ≤ 4)
    × (shown.count ≡ length shown.scenarios)
    × (has_repeat (map (λ s. s.id) shown.scenarios) ≡ false)
    × (edited ≡ edited)
unfolding preview save_editor perform_all or_raise lookup perform create new_store put new_workspace
    has_repeat values generator
preview-AreFew_example =
    preview-AreFew (λ seed n a b. a) 0 (λ n. "") limits host tools 0 shown edited edited refl
