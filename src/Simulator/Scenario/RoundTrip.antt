-- ===== src/Simulator/Scenario/RoundTrip.antt =====
-- src/sensor_sim/scenario_loader.cpp: the file of a profile, read by the loader.
use net_node_gateway.Prelude.{
  append-nil, ℕ, suc, ◌≡◌, ◌≢◌, refl, subst, ap, ap₂, ◌∙◌, inl, inr, false, Option, List, [], ◌∷◌,
  ◌++◌, length, All,
}
use net_node_gateway.Prelude.Text.{codes}
use net_node_gateway.Types.{TrackClass}
use net_node_gateway.Simulator.Machine.{Arithmetic}
use net_node_gateway.Simulator.Objects.{ScenarioProfile}
use net_node_gateway.Simulator.Scenario.{
  Result, loaded, and_then, empty_profile, load_lines, checked, load_scenario_from_string,
}
use net_node_gateway.Simulator.Scenario.Text.{quote, comma, line_feed, has}
use net_node_gateway.Simulator.Scenario.Text.Laws.{
  StartsSolid, EndsSolid-append, unlines, pieces-unlines, IsPlain-StartsSolid, IsPlain-EndsSolid,
}
use net_node_gateway.Simulator.Scenario.Printed.{classes, array}
use net_node_gateway.Simulator.Scenario.Fields.{
  field_line, load_line-field_line, extract_number-comma, extract_number-plain,
}
use net_node_gateway.Simulator.Scenario.Keys.{
  SetsNumber, min_objects_line, max_objects_line, spawn_rate_hz_line, min_range_m_line,
  max_range_m_line, min_speed_mps_line, max_speed_mps_line, hostile_probability_line, name_line,
  types_line, load_lines-step, load_lines-nil, tested_lem, brace_line,
}
use net_node_gateway.Simulator.Scenario.FileLines.{IsWritten, file_lines, numbers, file_lines-free}

module _ {D : Type 0} (a : Arithmetic D) (stod : List ℕ → Option D) (write : D → List ℕ) where
  number_step :
      (n : ℕ) (key : List ℕ) (put : D → ScenarioProfile D → ScenarioProfile D) (x : D)
      (lines : List (List ℕ)) (p : ScenarioProfile D) (r : Result (ScenarioProfile D))
      → SetsNumber a stod key put
      → has 58 key ≡ false
      → IsWritten stod write x
      → load_lines a stod n lines (put x p) ≡ r
      → load_lines a stod (suc n) (field_line key (write x ++ comma ∷ []) ∷ lines) p ≡ r
  number_step n key put x lines p r sets free (plain, read) =
      load_lines-step a stod n _ lines p (put x p) r (
        load_line-field_line a stod key (write x ++ comma ∷ []) lines p free
          (IsPlain-StartsSolid (write x) (comma ∷ []) plain)
          (EndsSolid-append (write x) (comma ∷ []) refl)
        ∙ sets (write x ++ comma ∷ []) x lines p
            (extract_number-comma a stod (write x) x plain read))

  types_step :
      (n : ℕ) (ts : List TrackClass) (lines : List (List ℕ)) (p : ScenarioProfile D)
      (r : Result (ScenarioProfile D))
      → p.allowed_types ≡ []
      → ts ≢ []
      → load_lines a stod n lines (record p { allowed_types = ts }) ≡ r
      → load_lines a stod (suc n) (field_line (codes "allowed_types") (array ts) ∷ lines) p ≡ r
  unfolding has
  types_step n [] lines p r none_yet some_left = absurd (some_left refl)
  types_step n (t ∷ ts) lines p r none_yet some_left =
      load_lines-step a stod n _ lines p (record p { allowed_types = t ∷ ts }) r
        (load_line-field_line a stod (codes "allowed_types") (array (t ∷ ts)) lines p refl refl
            (EndsSolid-append (91 ∷ classes (t ∷ ts)) (93 ∷ comma ∷ []) refl)
          ∙ types_line a stod t ts lines p none_yet)

  name_step :
      (n : ℕ) (name : List ℕ) (lines : List (List ℕ)) (p : ScenarioProfile D)
      (r : Result (ScenarioProfile D))
      → load_lines a stod n lines (record p { name = name }) ≡ r
      → load_lines a stod
          (suc n)
          (field_line (codes "name") (quote ∷ (name ++ quote ∷ comma ∷ [])) ∷ lines)
          p
        ≡ r
  unfolding has
  name_step n name lines p r =
      load_lines-step a stod n _ lines p (record p { name = name }) r
        (load_line-field_line a stod (codes "name") (quote ∷ (name ++ quote ∷ comma ∷ [])) lines p
            refl refl (EndsSolid-append (quote ∷ name) (quote ∷ comma ∷ []) refl)
          ∙ name_line a stod name lines p)

  last_step :
      (n : ℕ) (x : D) (lines : List (List ℕ)) (p : ScenarioProfile D)
      (r : Result (ScenarioProfile D))
      → IsWritten stod write x
      → load_lines a stod n lines (record p { hostile_probability = x }) ≡ r
      → load_lines a stod (suc n) (field_line (codes "hostile_probability") (write x) ∷ lines) p ≡ r
  unfolding has
  last_step n x lines p r (plain, read) =
      load_lines-step a stod n _ lines p (record p { hostile_probability = x }) r
        (load_line-field_line a stod (codes "hostile_probability") (write x) lines p refl
            (subst StartsSolid (append-nil (write x)) (IsPlain-StartsSolid (write x) [] plain))
            (IsPlain-EndsSolid (write x) plain)
          ∙ hostile_probability_line a stod (write x) x lines p
              (extract_number-plain a stod (write x) x plain read))

  load_lines-file_lines :
      (p : ScenarioProfile D) (fewest most : D)
      → p.allowed_types ≢ []
      → All (IsWritten stod write) (numbers stod write p fewest most)
      → load_lines a stod 12 (file_lines stod write p fewest most) (empty_profile a stod)
        ≡ loaded (record p { min_objects = a.bits 4 fewest; max_objects = a.bits 4 most })
  unfolding has
  load_lines-file_lines p fewest most types
        (f, (m, (rate, (near, (far, (slow, (fast, (hostile, end)))))))) =
      load_lines-step a stod 11 _ _ _ _ _ (brace_line a stod 123 _ _ (inl refl)) (
        name_step 10 _ _ _ _ (
          number_step 9 _ _ _ _ _ _ (min_objects_line a stod) refl f (
            number_step 8 _ _ _ _ _ _ (max_objects_line a stod) refl m (
              types_step 7 _ _ _ _ refl types (
                number_step 6 _ _ _ _ _ _ (spawn_rate_hz_line a stod) refl rate (
                  number_step 5 _ _ _ _ _ _ (min_range_m_line a stod) refl near (
                    number_step 4 _ _ _ _ _ _ (max_range_m_line a stod) refl far (
                      number_step 3 _ _ _ _ _ _ (min_speed_mps_line a stod) refl slow (
                        number_step 2 _ _ _ _ _ _ (max_speed_mps_line a stod) refl fast (
                          last_step 1 _ _ _ _ hostile (
                            load_lines-step a stod 0 _ _ _ _ _
                              (brace_line a stod 125 _ _ (inr refl))
                              (load_lines-nil a stod 0 _))))))))))))

  -- A profile is what the loader reads from its file: one that has a name without a line feed and at
  -- least one class, whose limits on the objects are those of two numbers stod write, and all of whose
  -- numbers stod write are written without blanks and commas and read as themselves.
  pub load_scenario_from_string-file_lines :
      (p : ScenarioProfile D) (fewest most : D)
      → p.name ≢ []
      → has line_feed p.name ≡ false
      → p.allowed_types ≢ []
      → a.bits 4 fewest ≡ p.min_objects
      → a.bits 4 most ≡ p.max_objects
      → All (IsWritten stod write) (numbers stod write p fewest most)
      → load_scenario_from_string a stod (unlines (file_lines stod write p fewest most)) ≡ loaded p
  unfolding load_scenario_from_string
  load_scenario_from_string-file_lines p fewest most named free some_types f m written =
      let lines = file_lines stod write p fewest most in
      ap (λ ls. and_then (load_lines a stod (length ls) ls (empty_profile a stod)) (checked a stod))
        (pieces-unlines lines (file_lines-free stod write p fewest most free written))
      ∙ ap (λ r. and_then r (checked a stod))
          (load_lines-file_lines p fewest most some_types written
            ∙ ap₂ (λ k l. loaded (record p { min_objects = k; max_objects = l })) f m)
      ∙ tested_lem a stod p.name p.allowed_types p named some_types
