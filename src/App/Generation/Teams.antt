-- ===== src/App/Generation/Teams.antt =====
-- generation.py: the resources of the models of an expansion, against the limit on them.
use Prim.Native.Nat.{ℕ, zero, suc, ◌≤◌}
use Prim.Native.String.{String}
use mathlib.Core.Path.{subst}
use value_stream_simulator.Prelude.{
  ◌≡◌, refl, ap, inl, inr, false, List, [], ◌∷◌, map, length, All, All-append, Bool-cases,
  Option-cases, ltb, if_both, arith,
}
use value_stream_simulator.Prelude.Exec.{ok}
use value_stream_simulator.Service.Schemas.{ModelInput, Collection, pool, listed}
use value_stream_simulator.App.Schemas.{
  ModelSettings, SweepValue, ScenarioDefinition, ConcreteScenario,
}
use value_stream_simulator.App.Settings.{AppSettings}
use value_stream_simulator.App.Storage.{includes}
use value_stream_simulator.App.Generation.{
  Tools, product, exceeds_limits, developers, materialize_team, concrete_model, Swept, sweep,
  scenario_of, changes, settings_of, add_scenario, combine, combine_all, expand_scenarios,
}
use value_stream_simulator.App.Generation.Bounds.{Holds, and_then-Holds, any_result}

abbrev size : {R : Type 0} → Collection R → ℕ
size (pool n r) = n
size (listed rs) = length rs

module _ {F : Type 0} where
  abbrev pub HasFew : ℕ → ModelInput F → Type 0
  HasFew n m = (length m.developer_team ≤ n) × (size m.qa_testers ≤ n) × (size m.toolchain_pool ≤ n)

  length-developers :
      (tools : Tools F) (settings : ModelSettings F) (seed i count : ℕ)
      → length (developers tools settings seed i count) ≡ count
  unfolding developers
  length-developers tools settings seed i zero = refl
  length-developers tools settings seed i (suc count) =
      ap suc (length-developers tools settings seed (suc i) count)

  concrete_model-HasFew :
      (tools : Tools F) (settings : ModelSettings F) (limits : AppSettings) (seed : ℕ)
      → exceeds_limits tools settings limits ≡ false
      → HasFew limits.max_resources (concrete_model tools settings seed)
  unfolding exceeds_limits concrete_model materialize_team
  concrete_model-HasFew tools settings limits seed fits = (
    ground (arith, fits, length-developers tools settings seed 0 settings.team_size),
    ground (arith, fits),
    ground (arith, fits),
  )

  settings_of-Holds :
      (tools : Tools F) (limits : AppSettings) (d : ScenarioDefinition F) (names : List String)
      (combination : List (SweepValue F))
      → Holds
          (λ s. exceeds_limits tools s limits ≡ false)
          (settings_of tools limits d names combination)
  unfolding settings_of
  settings_of-Holds tools limits d names combination =
      elim (Option-cases (tools.revalidate d.settings (changes tools names combination))) [
        | inl invalid ↦ rw (invalid, settings_of) tt
        | inr (s, valid) ↦
            rw (valid, settings_of)
              (elim (Bool-cases (exceeds_limits tools s limits)) [
                | inl many ↦ rw many tt
                | inr few ↦ rw few few
              ])
      ]

  abbrev HaveFew : ℕ → List (ConcreteScenario F) → Type 0
  HaveFew n = All (λ s. HasFew n s.model)

  combine-HaveFew :
      (tools : Tools F) (limits : AppSettings) (d : ScenarioDefinition F) (names : List String)
      (combinations : List (List (SweepValue F))) (made : List (ConcreteScenario F))
      → HaveFew limits.max_resources made
      → Holds (HaveFew limits.max_resources) (combine tools limits d names combinations made)
  unfolding combine scenario_of add_scenario
  combine-HaveFew tools limits d names [] made h = h
  combine-HaveFew tools limits d names (c ∷ cs) made h =
      and_then-Holds (λ s. exceeds_limits tools s limits ≡ false) _
        (settings_of tools limits d names c) _ (settings_of-Holds tools limits d names c)
        (λ s fits.
          let added = scenario_of tools d names s in
          combine-HaveFew tools limits d names cs (add_scenario tools added made) (
            if_both (HaveFew limits.max_resources) (includes added.id (map (λ x. x.id) made)) h (
              All-append _ made (added ∷ []) h
                (concrete_model-HasFew tools s limits d.team_seed fits, tt))))

  combine_all-HaveFew :
      (tools : Tools F) (limits : AppSettings) (swept : List (Swept F))
      (made : List (ConcreteScenario F))
      → HaveFew limits.max_resources made
      → Holds (HaveFew limits.max_resources) (combine_all tools limits swept made)
  unfolding combine_all
  combine_all-HaveFew tools limits [] made h = h
  combine_all-HaveFew tools limits ((d, values) ∷ rest) made h =
      let names = map (λ axis. axis.0) values in
      let combinations = product (map (λ axis. axis.1) values) in
      and_then-Holds (HaveFew limits.max_resources) _
        (combine tools limits d names combinations made) _
        (combine-HaveFew tools limits d names combinations made h)
        (λ made' few. combine_all-HaveFew tools limits rest made' few)

  expand_scenarios-Holds :
      (tools : Tools F) (definitions : List (ScenarioDefinition F)) (limits : AppSettings)
      → Holds (HaveFew limits.max_resources) (expand_scenarios tools definitions limits)
  unfolding expand_scenarios
  expand_scenarios-Holds tools definitions limits =
      elim (Bool-cases (ltb limits.max_definitions (length definitions))) [
        | inl many ↦ rw many tt
        | inr few ↦ rw few (
            and_then-Holds (λ swept. Unit) _ (sweep tools limits 0 definitions) _ (any_result _)
              (λ swept _. combine_all-HaveFew tools limits swept [] tt))
      ]

  -- Where definitions are expanded, the model of each scenario has no more developers, testers and
  -- toolchains than the resources allowed.
  pub expand_scenarios-HaveFew :
      (tools : Tools F) (definitions : List (ScenarioDefinition F)) (limits : AppSettings)
      (ss : List (ConcreteScenario F))
      → expand_scenarios tools definitions limits ≡ ok ss
      → All (λ s. HasFew limits.max_resources s.model) ss
  expand_scenarios-HaveFew tools definitions limits ss made =
      subst (Holds (HaveFew limits.max_resources)) made
        (expand_scenarios-Holds tools definitions limits)
