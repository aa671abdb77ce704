-- ===== src/App/Generation.antt =====
-- src/value_stream/app/generation.py: `axis_values`, `validate_model_limits` and `expand_scenarios`.
-- The texts, digests and decimal numbers are the host's, and so is the validation by pydantic.
pub mod Bounds
pub mod Previews
pub mod Teams
mod Examples
use Prim.Native.Nat.{ℕ, zero, suc, ◌+◌, ◌-◌, ◌*◌}
use Prim.Native.String.{String}
use value_stream_simulator.Prelude.{
  Bool, true, false, not, ◌||◌, Option, none, some, List, [], ◌∷◌, ◌++◌, map, length, any, leb, ltb,
  ◌==◌, if◌then◌else◌,
}
use value_stream_simulator.Prelude.Exec.{Result, ok, raise}
use value_stream_simulator.Service.Schemas.{
  ModelInput, DeveloperInput, QaInput, ToolchainInput, Collection, pool,
}
use value_stream_simulator.App.Schemas.{
  Code, limit_exceeded, invalid_input, Distribution, linear, normal, ModelSettings, SweepValue,
  SweepRange, Axis, explicit, range, ScenarioDefinition, ConcreteScenario,
}
use value_stream_simulator.App.Settings.{AppSettings}
use value_stream_simulator.App.Storage.{includes}

-- What the expansion takes from the host. `steps` is the whole part of (end - start) / step in
-- decimal arithmetic, and `step_value` a number of the range as a float. `revalidate` reads the
-- settings with some properties replaced; `scenario_id` is the uuid5 of the canonical settings.
-- `ratio` is a division of integers, and `accepted_draw` the draw, of a generator seeded with a team's
-- settings, that is the first in the range for the developer at an index.
pub record Tools (F : Type 0) : Type 0 where
  pub starts_after_end : SweepRange F → Bool
  pub steps : SweepRange F → ℕ
  pub step_value : SweepRange F → ℕ → F
  pub same_value : SweepValue F → SweepValue F → Bool
  pub is_property : String → Bool
  pub sorted_before : String → String → Bool
  pub revalidate : ModelSettings F → List (String × SweepValue F) → Option (ModelSettings F)
  pub scenario_id : ℕ → ModelSettings F → ℕ
  pub scenario_name : String → List String → ModelSettings F → String
  pub execution_seed : ℕ → ℕ → ℕ
  pub same_number : F → F → Bool
  pub add : F → F → F
  pub sub : F → F → F
  pub mul : F → F → F
  pub half : F → F
  pub ratio : ℕ → ℕ → F
  pub accepted_draw : ModelSettings F → ℕ → ℕ → F
  pub developer_name : ℕ → String

module _ {ℓ} {A B : Type ℓ} where
  unfoldable pub and_then : Result {0, ℓ} Code A → (A → Result {0, ℓ} Code B) → Result {0, ℓ} Code B
  and_then (ok a) f = f a
  and_then (raise e) f = raise e

-- math.prod
unfoldable pub prod : List ℕ → ℕ
prod [] = 1
prod (n ∷ ns) = n * prod ns

-- Each element before each list.
unfoldable pub extend : {A : Type 0} → List A → List (List A) → List (List A)
extend [] rest = []
extend (x ∷ xs) rest = map (λ ys. x ∷ ys) rest ++ extend xs rest

-- itertools.product(*lists)
unfoldable pub product : {A : Type 0} → List (List A) → List (List A)
unfolding extend
product [] = [] ∷ []
product (xs ∷ xss) = extend xs (product xss)

-- A definition with the values of its axes.
abbrev pub Swept : Type 0 → Type 0
Swept F = ScenarioDefinition F × List (String × List (SweepValue F))

module _ {F : Type 0} (tools : Tools F) where
  -- dict.fromkeys: the first of equal values stays, in order. `seen` are those before.
  unfoldable pub distinct : List (SweepValue F) → List (SweepValue F) → List (SweepValue F)
  distinct seen [] = []
  distinct seen (v ∷ vs) =
      let rest = distinct (seen ++ v ∷ []) vs in
      let again = distinct seen vs in if any (tools.same_value v) seen then again else v ∷ rest

  -- [float(start + step * i) for i in range(count)], from an index
  unfoldable pub range_values : SweepRange F → ℕ → ℕ → List (SweepValue F)
  range_values r i zero = []
  range_values r i (suc count) =
      SweepValue.number (tools.step_value r i) ∷ range_values r (suc i) count

  unfoldable pub axis_values : Axis F → ℕ → Result {0, 0} Code (List (SweepValue F))
  unfolding range_values distinct
  axis_values (range r) limit =
      if tools.starts_after_end r
      then raise invalid_input
      else if leb limit (tools.steps r)
      then raise limit_exceeded
      else ok (range_values r 0 (suc (tools.steps r)))
  axis_values (explicit vs) limit =
      if ltb limit (length vs)
      then raise limit_exceeded
      else if length (distinct [] vs) == 0
      then raise invalid_input
      else ok (distinct [] vs)

  unfoldable pub exceeds_limits : ModelSettings F → AppSettings → Bool
  exceeds_limits settings limits =
      ltb limits.max_resources settings.team_size
      || ltb limits.max_resources settings.qa_size
      || ltb limits.max_resources settings.toolchain_size

  -- sorted(definition.sweeps.items()): the names are distinct
  unfoldable pub insert_axis : String × Axis F → List (String × Axis F) → List (String × Axis F)
  insert_axis axis [] = axis ∷ []
  insert_axis axis (other ∷ rest) =
      let later = insert_axis axis rest in
      if tools.sorted_before axis.0 other.0 then axis ∷ other ∷ rest else other ∷ later

  unfoldable pub sorted_axes : List (String × Axis F) → List (String × Axis F)
  unfolding insert_axis
  sorted_axes [] = []
  sorted_axes (axis ∷ axes) = insert_axis axis (sorted_axes axes)

  -- The values of each axis, with its name.
  unfoldable pub values_of :
      ℕ → List (String × Axis F) → Result {0, 0} Code (List (String × List (SweepValue F)))
  unfolding and_then axis_values
  values_of limit [] = ok []
  values_of limit ((name, axis) ∷ axes) =
      and_then (axis_values axis limit)
        (λ vs. and_then (values_of limit axes) (λ rest. ok ((name, vs) ∷ rest)))

  -- The number of combinations of one definition.
  unfoldable pub combination_count : List (String × List (SweepValue F)) → ℕ
  unfolding prod
  combination_count axes = prod (map (λ axis. length axis.1) axes)

  -- The first loop of `expand_scenarios`: the axes of each definition, with the count so far.
  unfoldable pub sweep :
      AppSettings → ℕ → List (ScenarioDefinition F) → Result {0, 0} Code (List (Swept F))
  unfolding and_then sorted_axes values_of combination_count
  sweep limits count [] = ok []
  sweep limits count (d ∷ ds) =
      if any (λ axis. not (tools.is_property axis.0)) d.sweeps
      then raise invalid_input
      else and_then (values_of limits.max_axis_values (sorted_axes d.sweeps)) (λ values.
        let total = count + combination_count values in
        if ltb limits.max_models total
        then raise limit_exceeded
        else and_then (sweep limits total ds) (λ rest. ok ((d, values) ∷ rest)))

  -- The efficiency of the developer at an index.
  unfoldable pub efficiency : ModelSettings F → ℕ → ℕ → F
  efficiency settings seed i =
      let low = settings.efficiency_min in
      let high = settings.efficiency_max in
      if tools.same_number low high then low else elim settings.distribution [
        | linear ↦
            if settings.team_size == 1
            then tools.add low (tools.half (tools.sub high low))
            else tools.add low
                (tools.mul (tools.sub high low) (tools.ratio i (settings.team_size - 1)))
        | normal ↦ tools.accepted_draw settings seed i
      ]

  -- The developers from an index, so many.
  unfoldable pub developers : ModelSettings F → ℕ → ℕ → ℕ → List (DeveloperInput F)
  unfolding efficiency
  developers settings seed i zero = []
  developers settings seed i (suc count) =
      record { name = tools.developer_name (suc i); efficiency = efficiency settings seed i }
      ∷ developers settings seed (suc i) count

  unfoldable pub materialize_team : ModelSettings F → ℕ → List (DeveloperInput F)
  unfolding developers
  materialize_team settings seed = developers settings seed 0 settings.team_size

  unfoldable pub concrete_model : ModelSettings F → ℕ → ModelInput F
  unfolding materialize_team
  concrete_model settings seed = record {
    developer_team = materialize_team settings seed;
    deployment_cadence = settings.deployment_cadence;
    qa_testers = pool settings.qa_size (record {
      time_cost = settings.qa_time_cost;
      failure_rate = settings.qa_failure_rate;
      failure_cost = settings.qa_failure_cost;
    });
    toolchain_pool = pool settings.toolchain_size (record {
      deployment_duration = settings.deployment_duration;
      failure_rate = settings.deployment_failure_rate;
    });
    support_interval = settings.support_interval;
    support_task_story_points = settings.support_task_story_points;
  }

  -- What one combination of one definition gives.
  unfoldable pub scenario_of :
      ScenarioDefinition F → List String → ModelSettings F → ConcreteScenario F
  unfolding concrete_model
  scenario_of d names settings =
      let id = tools.scenario_id d.id settings in
      record {
        id = id;
        definition_id = d.id;
        revision = d.revision;
        name = tools.scenario_name d.name names settings;
        settings = settings;
        team_seed = d.team_seed;
        execution_seed = tools.execution_seed d.execution_seed id;
        model = concrete_model settings d.team_seed;
      }

  -- dict(zip(values, combination))
  unfoldable pub changes : List String → List (SweepValue F) → List (String × SweepValue F)
  changes [] vs = []
  changes (n ∷ ns) [] = []
  changes (n ∷ ns) (v ∷ vs) = (n, v) ∷ changes ns vs

  -- The settings of one combination, validated.
  unfoldable pub settings_of :
      AppSettings
      → ScenarioDefinition F
      → List String
      → List (SweepValue F)
      → Result {0, 0} Code (ModelSettings F)
  unfolding changes exceeds_limits
  settings_of limits d names combination =
      elim (tools.revalidate d.settings (changes names combination)) [
        | none ↦ raise invalid_input
        | some settings ↦
            if exceeds_limits settings limits then raise limit_exceeded else ok settings
      ]

  -- The scenario is added, unless one with its identifier is there.
  unfoldable pub add_scenario :
      ConcreteScenario F → List (ConcreteScenario F) → List (ConcreteScenario F)
  unfolding includes
  add_scenario s made = if includes s.id (map (λ x. x.id) made) then made else made ++ s ∷ []

  -- The inner loop, over the combinations of one definition.
  unfoldable pub combine :
      AppSettings
      → ScenarioDefinition F
      → List String
      → List (List (SweepValue F))
      → List (ConcreteScenario F)
      → Result {0, 0} Code (List (ConcreteScenario F))
  unfolding settings_of add_scenario scenario_of and_then
  combine limits d names [] made = ok made
  combine limits d names (combination ∷ rest) made =
      and_then (settings_of limits d names combination)
        (λ settings. combine limits d names rest (add_scenario (scenario_of d names settings) made))

  -- The second loop of `expand_scenarios`.
  unfoldable pub combine_all :
      AppSettings
      → List (Swept F)
      → List (ConcreteScenario F)
      → Result {0, 0} Code (List (ConcreteScenario F))
  unfolding and_then combine product
  combine_all limits [] made = ok made
  combine_all limits ((d, values) ∷ rest) made =
      and_then
        (combine limits d (map (λ axis. axis.0) values) (product (map (λ axis. axis.1) values))
          made)
        (λ made'. combine_all limits rest made')

  unfoldable pub expand_scenarios :
      List (ScenarioDefinition F) → AppSettings → Result {0, 0} Code (List (ConcreteScenario F))
  unfolding and_then sweep combine_all
  expand_scenarios definitions limits =
      if ltb limits.max_definitions (length definitions)
      then raise limit_exceeded
      else and_then (sweep limits 0 definitions) (λ swept. combine_all limits swept [])
