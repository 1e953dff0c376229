-- ===== src/Simulator/Scenario/Keys.antt =====
-- src/sensor_sim/scenario_loader.cpp: what the loader does with the value of each key.
use net_node_gateway.Prelude.{
  ◌⊎◌, ℕ, zero, suc, ◌≡◌, ◌≢◌, refl, ap, ◌∙◌, inl, inr, Option, List, [], ◌∷◌, ◌++◌,
}
use net_node_gateway.Prelude.Text.{codes}
use net_node_gateway.Types.{TrackClass}
use net_node_gateway.Simulator.Machine.{Arithmetic}
use net_node_gateway.Simulator.Objects.{ScenarioProfile}
use net_node_gateway.Simulator.Scenario.{
  Result, loaded, and_then, extract_string_array, push_types, gather, extract_number, set_field,
  load_types, load_value, load_line, load_lines, tested,
}
use net_node_gateway.Simulator.Scenario.Text.{
  quote, comma, trim, skip_spaces, drop_spaces, before_last,
}
use net_node_gateway.Simulator.Scenario.Printed.{
  array, gather-array, extract_string_array-array, push_types-names,
}
use net_node_gateway.Simulator.Scenario.Fields.{extract_string-quoted}

module _ {D : Type 0} (a : Arithmetic D) (stod : List ℕ → Option D) where
  -- A line with a number, by its key.
  abbrev pub SetsNumber : List ℕ → (D → ScenarioProfile D → ScenarioProfile D) → Type 0
  SetsNumber key put =
      (value : List ℕ) (x : D) (lines : List (List ℕ)) (p : ScenarioProfile D)
      → extract_number a stod value ≡ loaded x
      → load_value a stod key value lines p ≡ loaded (put x p, lines)

  pub min_objects_line :
      SetsNumber (codes "min_objects") (λ x p. record p { min_objects = a.bits 4 x })
  unfolding load_value set_field
  min_objects_line value x lines p h = rw h refl

  pub max_objects_line :
      SetsNumber (codes "max_objects") (λ x p. record p { max_objects = a.bits 4 x })
  unfolding load_value set_field
  max_objects_line value x lines p h = rw h refl

  pub spawn_rate_hz_line :
      SetsNumber (codes "spawn_rate_hz") (λ x p. record p { spawn_rate_hz = x })
  unfolding load_value set_field
  spawn_rate_hz_line value x lines p h = rw h refl

  pub min_range_m_line : SetsNumber (codes "min_range_m") (λ x p. record p { min_range_m = x })
  unfolding load_value set_field
  min_range_m_line value x lines p h = rw h refl

  pub max_range_m_line : SetsNumber (codes "max_range_m") (λ x p. record p { max_range_m = x })
  unfolding load_value set_field
  max_range_m_line value x lines p h = rw h refl

  pub min_speed_mps_line :
      SetsNumber (codes "min_speed_mps") (λ x p. record p { min_speed_mps = x })
  unfolding load_value set_field
  min_speed_mps_line value x lines p h = rw h refl

  pub max_speed_mps_line :
      SetsNumber (codes "max_speed_mps") (λ x p. record p { max_speed_mps = x })
  unfolding load_value set_field
  max_speed_mps_line value x lines p h = rw h refl

  pub hostile_probability_line :
      SetsNumber (codes "hostile_probability") (λ x p. record p { hostile_probability = x })
  unfolding load_value set_field
  hostile_probability_line value x lines p h = rw h refl

  pub name_line :
      (name : List ℕ) (lines : List (List ℕ)) (p : ScenarioProfile D)
      → load_value a stod (codes "name") (quote ∷ (name ++ quote ∷ comma ∷ [])) lines p
        ≡ loaded (record p { name = name }, lines)
  unfolding load_value set_field before_last
  name_line name lines p =
      ap
        (λ r.
          and_then (and_then r (λ s. loaded (record p { name = s }))) (λ p'. loaded (p', lines)))
        (extract_string-quoted name (comma ∷ []) refl)

  load_types_parts :
      (value whole : List ℕ) (lines rest names : List (List ℕ)) (ts : List TrackClass)
      (p : ScenarioProfile D)
      → gather value lines ≡ (whole, rest)
      → extract_string_array whole ≡ loaded names
      → push_types p.allowed_types names ≡ loaded ts
      → load_types a stod value lines p ≡ loaded (record p { allowed_types = ts }, rest)
  unfolding load_types
  load_types_parts value whole lines rest names ts p g e q = rw (g, e, q) refl

  pub types_line :
      (t : TrackClass) (ts : List TrackClass) (lines : List (List ℕ)) (p : ScenarioProfile D)
      → p.allowed_types ≡ []
      → load_value a stod (codes "allowed_types") (array (t ∷ ts)) lines p
        ≡ loaded (record p { allowed_types = t ∷ ts }, lines)
  unfolding load_value
  types_line t ts lines p h =
      load_types_parts (array (t ∷ ts)) (array (t ∷ ts)) lines lines _ (t ∷ ts) p
        (gather-array (t ∷ ts) lines) (extract_string_array-array t ts)
        (push_types-names p.allowed_types (t ∷ ts) ∙ ap (λ l. loaded (l ++ t ∷ ts)) h)

  pub load_lines-step :
      (n : ℕ) (line : List ℕ) (lines : List (List ℕ)) (p p' : ScenarioProfile D)
      (r : Result (ScenarioProfile D))
      → load_line a stod line lines p ≡ loaded (p', lines)
      → load_lines a stod n lines p' ≡ r
      → load_lines a stod (suc n) (line ∷ lines) p ≡ r
  unfolding load_lines
  load_lines-step n line lines p p' r h k = rw h k

  pub load_lines-nil : (n : ℕ) (p : ScenarioProfile D) → load_lines a stod n [] p ≡ loaded p
  unfolding load_lines
  load_lines-nil zero p = refl
  load_lines-nil (suc n) p = refl

  pub tested_lem :
      (name : List ℕ) (types : List TrackClass) (p : ScenarioProfile D)
      → name ≢ []
      → types ≢ []
      → tested a stod name types p ≡ loaded p
  tested_lem [] types p h k = absurd (h refl)
  tested_lem (c ∷ cs) [] p h k = absurd (k refl)
  tested_lem (c ∷ cs) (t ∷ ts) p h k = refl

  pub brace_line :
      (c : ℕ) (lines : List (List ℕ)) (p : ScenarioProfile D)
      → (c ≡ 123) ⊎ (c ≡ 125)
      → load_line a stod (c ∷ []) lines p ≡ loaded (p, lines)
  unfolding load_line trim skip_spaces drop_spaces
  brace_line c lines p (inl e) = rw e refl
  brace_line c lines p (inr e) = rw e refl
