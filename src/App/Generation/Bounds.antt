-- ===== src/App/Generation/Bounds.antt =====
-- generation.py: how many values and scenarios an expansion makes, and that none is made twice.
use Prim.Native.Nat.{ℕ, zero, suc, ◌+◌, ◌*◌, ◌≤◌}
use Prim.Native.String.{String}
use mathlib.Core.Path.{subst}
use value_stream_simulator.Prelude.{
  ◌≡◌, refl, ap, ◌∙◌, inl, inr, false, not, ◌||◌, List, [], ◌∷◌, ◌++◌, map, length, length-append,
  any, sum_of, Bool-cases, leb, ltb, ◌==◌, arith,
}
use value_stream_simulator.Prelude.Exec.{Result, ok, raise}
use value_stream_simulator.App.Schemas.{
  Code, SweepValue, SweepRange, Axis, explicit, range, ScenarioDefinition, ConcreteScenario,
}
use value_stream_simulator.App.Settings.{AppSettings}
use value_stream_simulator.App.Storage.{includes}
use value_stream_simulator.App.Storage.Editing.{has_repeat}
use value_stream_simulator.App.Generation.{
  Tools, and_then, prod, extend, product, distinct, range_values, axis_values, sorted_axes,
  values_of, combination_count, Swept, sweep, scenario_of, settings_of, add_scenario, combine,
  combine_all, expand_scenarios,
}

-- What holds of a result, if there is one.
abbrev pub Holds {ℓ} : {A : Type ℓ} → (A → Type 0) → Result {0, ℓ} Code A → Type 0
Holds P (ok a) = P a
Holds P (raise e) = Unit

pub and_then-Holds {ℓ} :
    {A B : Type ℓ} (P : A → Type 0) (Q : B → Type 0) (r : Result {0, ℓ} Code A)
    (f : A → Result {0, ℓ} Code B)
    → Holds P r
    → ((a : A) → P a → Holds Q (f a))
    → Holds Q (and_then r f)
unfolding and_then
and_then-Holds P Q (ok a) f h k = k a h
and_then-Holds P Q (raise e) f h k = tt

pub any_result {ℓ} : {A : Type ℓ} (r : Result {0, ℓ} Code A) → Holds (λ a. Unit {0}) r
any_result (ok a) = tt
any_result (raise e) = tt

module _ {F : Type 0} (tools : Tools F) where
  length-range_values :
      (r : SweepRange F) (i count : ℕ) → length (range_values tools r i count) ≡ count
  unfolding range_values
  length-range_values r i zero = refl
  length-range_values r i (suc count) = ap suc (length-range_values r (suc i) count)

  length-distinct : (seen vs : List (SweepValue F)) → length (distinct tools seen vs) ≤ length vs
  unfolding distinct
  length-distinct seen [] = omega arith
  length-distinct seen (v ∷ vs) =
      ground (arith, length-distinct seen vs, length-distinct (seen ++ v ∷ []) vs)

  axis_values-Holds :
      (axis : Axis F) (limit : ℕ)
      → Holds (λ vs. (1 ≤ length vs) × (length vs ≤ limit)) (axis_values tools axis limit)
  unfolding axis_values
  axis_values-Holds (range r) limit = elim (Bool-cases (tools.starts_after_end r)) [
    | inl wrong ↦ rw wrong tt
    | inr right ↦ rw right (elim (Bool-cases (leb limit (tools.steps r))) [
      | inl many ↦ rw many tt
      | inr few ↦ rw few (
          let count = length-range_values r 0 (suc (tools.steps r)) in
          (omega (arith, count), ground (arith, few, count)))
    ])
  ]
  axis_values-Holds (explicit vs) limit = elim (Bool-cases (ltb limit (length vs))) [
    | inl many ↦ rw many tt
    | inr few ↦ rw few (elim (Bool-cases (length (distinct tools [] vs) == 0)) [
      | inl empty ↦ rw empty tt
      | inr some_left ↦
          rw some_left (ground (arith, some_left), ground (arith, few, length-distinct [] vs))
    ])
  ]

  -- The values of a sweep, where it is accepted, are at least one and no more than the limit.
  pub length-axis_values :
      (axis : Axis F) (limit : ℕ) (vs : List (SweepValue F))
      → axis_values tools axis limit ≡ ok vs
      → (1 ≤ length vs) × (length vs ≤ limit)
  length-axis_values axis limit vs made =
      subst (Holds (λ ws. (1 ≤ length ws) × (length ws ≤ limit))) made
        (axis_values-Holds axis limit)

  -- The combinations of all definitions.
  abbrev total : List (Swept F) → ℕ
  total swept = sum_of (λ d. combination_count tools d.1) swept

  sweep-Holds :
      (limits : AppSettings) (count : ℕ) (ds : List (ScenarioDefinition F))
      → count ≤ limits.max_models
      → Holds (λ swept. count + total swept ≤ limits.max_models) (sweep tools limits count ds)
  unfolding sweep
  sweep-Holds limits count [] few = omega arith
  sweep-Holds limits count (d ∷ ds) few =
      elim (Bool-cases (any (λ axis. not (tools.is_property axis.0)) d.sweeps)) [
        | inl unknown ↦ rw unknown tt
        | inr known ↦ rw known (
            and_then-Holds (λ a. Unit) _
              (values_of tools limits.max_axis_values (sorted_axes tools d.sweeps)) _ (any_result _)
              (λ values _.
                elim (Bool-cases (ltb limits.max_models (count + combination_count tools values))) [
                  | inl many ↦ rw many tt
                  | inr fits ↦ rw fits (
                      and_then-Holds _ _
                        (sweep tools limits (count + combination_count tools values) ds) _
                        (sweep-Holds limits (count + combination_count tools values) ds
                          (ground (arith, fits)))
                        (λ rest h. omega (arith, h)))
                ]))
      ]

any-append : (x : ℕ) (xs : List ℕ) (y : ℕ) → includes x (xs ++ y ∷ []) ≡ includes x xs || (x == y)
unfolding includes
any-append x [] y = ground arith
any-append x (z ∷ xs) y = ground (arith, any-append x xs y)

has_repeat-append :
    (xs : List ℕ) (y : ℕ)
    → includes y xs ≡ false
    → has_repeat xs ≡ false
    → has_repeat (xs ++ y ∷ []) ≡ false
unfolding has_repeat includes
has_repeat-append [] y new h = refl
has_repeat-append (x ∷ xs) y new h = ground (arith, any-append x xs y, has_repeat-append xs y)

map-append : {A B : Type 0} (f : A → B) (xs ys : List A) → map f (xs ++ ys) ≡ map f xs ++ map f ys
map-append f [] ys = refl
map-append f (x ∷ xs) ys = ap (λ zs. f x ∷ zs) (map-append f xs ys)

length-map : {A B : Type 0} (f : A → B) (xs : List A) → length (map f xs) ≡ length xs
length-map f [] = refl
length-map f (x ∷ xs) = ap suc (length-map f xs)

length-extend :
    {A : Type 0} (xs : List A) (rest : List (List A))
    → length (extend xs rest) ≡ length xs * length rest
unfolding extend
length-extend [] rest = omega arith
length-extend (x ∷ xs) rest =
    length-append (map (λ ys. x ∷ ys) rest) (extend xs rest)
    ∙ grind (arith, length-extend xs rest, length-map (λ ys. x ∷ ys) rest)

length-product :
    {A : Type 0} (xss : List (List A)) → length (product xss) ≡ prod (map (λ xs. length xs) xss)
unfolding product prod
length-product [] = refl
length-product (xs ∷ xss) =
    length-extend xs (product xss) ∙ ap (λ k. length xs * k) (length-product xss)

no_repeat : has_repeat [] ≡ false
unfolding has_repeat
no_repeat = refl

suc-move : (n m : ℕ) → suc n + m ≡ n + suc m
suc-move n m = omega arith

sum_move : (n a b c : ℕ) → a ≡ b → n + a + c ≡ n + (b + c)
sum_move n a b c e = omega (arith, e)

map-map :
    {A B C : Type 0} (f : A → B) (g : B → C) (xs : List A)
    → map g (map f xs) ≡ map (λ x. g (f x)) xs
map-map f g [] = refl
map-map f g (x ∷ xs) = ap (λ ys. g (f x) ∷ ys) (map-map f g xs)

module _ {F : Type 0} where
  -- The identifiers of the scenarios are different, and there are no more than a number of them.
  abbrev AreFew : ℕ → List (ConcreteScenario F) → Type 0
  AreFew n ss = (length ss ≤ n) × (has_repeat (map (λ s. s.id) ss) ≡ false)

  add_scenario-AreFew :
      (tools : Tools F) (s : ConcreteScenario F) (n : ℕ) (made : List (ConcreteScenario F))
      → AreFew n made
      → AreFew (suc n) (add_scenario tools s made)
  unfolding add_scenario
  add_scenario-AreFew tools s n made h = elim (Bool-cases (includes s.id (map (λ x. x.id) made))) [
    | inl known ↦ rw known (omega (arith, h.0), h.1)
    | inr new ↦ rw new (
      omega (arith, h.0, length-append made (s ∷ [])),
      rw (map-append (λ (x : ConcreteScenario F). x.id) made (s ∷ []))
          (has_repeat-append (map (λ x. x.id) made) s.id new h.1),
    )
  ]

  combine-Holds :
      (tools : Tools F) (limits : AppSettings) (d : ScenarioDefinition F) (names : List String)
      (combinations : List (List (SweepValue F))) (n : ℕ) (made : List (ConcreteScenario F))
      → AreFew n made
      → Holds (AreFew (n + length combinations)) (combine tools limits d names combinations made)
  unfolding combine
  combine-Holds tools limits d names [] n made h = (omega (arith, h.0), h.1)
  combine-Holds tools limits d names (c ∷ cs) n made h =
      and_then-Holds (λ a. Unit) _ (settings_of tools limits d names c) _ (any_result _)
        (λ settings _.
          subst
            (λ k. Holds (AreFew k) (
              combine tools limits d names cs
                (add_scenario tools (scenario_of tools d names settings) made)))
            (suc-move n (length cs))
            (combine-Holds tools limits d names cs (suc n) _
              (add_scenario-AreFew tools (scenario_of tools d names settings) n made h)))

  fewer :
      (n m : ℕ) (r : Result {0, 0} Code (List (ConcreteScenario F)))
      → n ≤ m
      → Holds (AreFew (0 + n)) r
      → Holds (AreFew m) r
  fewer n m (ok ss) le h = (omega (arith, le, h.0), h.1)
  fewer n m (raise e) le h = tt

  length-combinations :
      (tools : Tools F) (values : List (String × List (SweepValue F)))
      → length (product (map (λ axis. axis.1) values)) ≡ combination_count tools values
  unfolding combination_count
  length-combinations tools values =
      length-product (map (λ axis. axis.1) values)
      ∙ ap prod (map-map (λ (axis : String × List (SweepValue F)). axis.1) (λ vs. length vs) values)

  combine_all-Holds :
      (tools : Tools F) (limits : AppSettings) (swept : List (Swept F)) (n : ℕ)
      (made : List (ConcreteScenario F))
      → AreFew n made
      → Holds (AreFew (n + total tools swept)) (combine_all tools limits swept made)
  unfolding combine_all
  combine_all-Holds tools limits [] n made h = (omega (arith, h.0), h.1)
  combine_all-Holds tools limits ((d, values) ∷ rest) n made h =
      let combinations = product (map (λ axis. axis.1) values) in
      and_then-Holds (AreFew (n + length combinations)) _
        (combine tools limits d (map (λ axis. axis.0) values) combinations made) _
        (combine-Holds tools limits d (map (λ axis. axis.0) values) combinations n made h)
        (λ made' few.
          subst (λ k. Holds (AreFew k) (combine_all tools limits rest made'))
            (sum_move n (length combinations) (combination_count tools values) (total tools rest)
              (length-combinations tools values))
            (combine_all-Holds tools limits rest (n + length combinations) made' few))

  expand_scenarios-Holds :
      (tools : Tools F) (definitions : List (ScenarioDefinition F)) (limits : AppSettings)
      → Holds (AreFew limits.max_models) (expand_scenarios tools definitions limits)
  unfolding expand_scenarios
  expand_scenarios-Holds tools definitions limits =
      elim (Bool-cases (ltb limits.max_definitions (length definitions))) [
        | inl many ↦ rw many tt
        | inr few ↦ rw few (
            and_then-Holds (λ swept. 0 + total tools swept ≤ limits.max_models) _
              (sweep tools limits 0 definitions) _
              (sweep-Holds tools limits 0 definitions (omega arith))
              (λ swept fits.
                fewer (total tools swept) limits.max_models (combine_all tools limits swept [])
                  (omega (arith, fits))
                  (combine_all-Holds tools limits swept 0 [] (omega arith, no_repeat))))
      ]

  -- Where definitions are expanded, the scenarios are no more than the models allowed, and their
  -- identifiers are different.
  pub expand_scenarios-AreFew :
      (tools : Tools F) (definitions : List (ScenarioDefinition F)) (limits : AppSettings)
      (ss : List (ConcreteScenario F))
      → expand_scenarios tools definitions limits ≡ ok ss
      → (length ss ≤ limits.max_models) × (has_repeat (map (λ s. s.id) ss) ≡ false)
  expand_scenarios-AreFew tools definitions limits ss made =
      subst (Holds (AreFew limits.max_models)) made
        (expand_scenarios-Holds tools definitions limits)
