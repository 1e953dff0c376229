-- ===== src/Simulator/Scenario/Sound.antt =====
-- src/sensor_sim/scenario_loader.cpp: what a profile that was loaded is good for.
use net_node_gateway.Prelude.{
  ℕ, zero, suc, ◌≤◌, ◌<◌, ◌≡◌, ◌≢◌, refl, sym, ap, ◌∙◌, true, false, Option, none, some, List, [],
  ◌∷◌, ◌++◌, length, arith, if◌then◌else◌,
}
use net_node_gateway.Prelude.Text.{text_eq, codes}
use net_node_gateway.Types.{TrackClass}
use net_node_gateway.Simulator.Machine.{Arithmetic}
use net_node_gateway.Simulator.Objects.{ScenarioProfile}
use net_node_gateway.Simulator.Scenario.{
  Result, loaded, failed, and_then, gather, load_types, load_value, load_pair, load_line,
  load_lines, LoadError, checked, tested, empty_profile, load_scenario_from_string, extract_string,
  extract_string_array, push_types, set_field, is_skipped,
}
use net_node_gateway.Simulator.Scenario.Text.{trim, before, behind, pieces, line_feed}

-- What holds of the result unless it is an exception.
abbrev pub Returns : {A : Type 0} → (A → Type 0) → Result A → Type 0
Returns P (loaded x) = P x
Returns P (failed e) = Unit

Returns-and_then :
    {A B : Type 0} (P : B → Type 0) (r : Result A) (f : A → Result B)
    → ((x : A) → r ≡ loaded x → Returns P (f x))
    → Returns P (and_then r f)
Returns-and_then P (loaded x) f h = h x refl
Returns-and_then P (failed e) f h = tt

module _ {D : Type 0} (a : Arithmetic D) (stod : List ℕ → Option D) where
  length-gather :
      (text : List ℕ) (lines : List (List ℕ)) → length (gather text lines).1 ≤ length lines
  unfolding gather
  length-gather text [] = omega arith
  length-gather text (line ∷ lines) = ground (arith, length-gather (text ++ 32 ∷ trim line) lines)

  abbrev Fewer : List (List ℕ) → ScenarioProfile D × List (List ℕ) → Type 0
  Fewer lines next = length next.1 ≤ length lines

  load_types-Fewer :
      (value : List ℕ) (lines : List (List ℕ)) (p : ScenarioProfile D)
      → Returns (Fewer lines) (load_types a stod value lines p)
  unfolding load_types
  load_types-Fewer value lines p =
      let whole = (gather value lines).0 in
      Returns-and_then (Fewer lines) (extract_string_array whole) _ (λ types e.
        Returns-and_then (Fewer lines) (push_types p.allowed_types types) _
          (λ ts f. length-gather value lines))

  load_value-Fewer :
      (key value : List ℕ) (lines : List (List ℕ)) (p : ScenarioProfile D)
      → Returns (Fewer lines) (load_value a stod key value lines p)
  unfolding load_value
  load_value-Fewer key value lines p =
      elim (text_eq key (codes "allowed_types"))
        as (λ b. Returns (Fewer lines) (
          if b
          then load_types a stod value lines p
          else and_then (set_field a stod key value p) (λ p'. loaded (p', lines)))) [
            | true ↦ load_types-Fewer value lines p
            | false ↦
                Returns-and_then (Fewer lines) (set_field a stod key value p) _
                  (λ p' e. omega arith)
          ]

  load_pair-Fewer :
      (start : Option (List ℕ)) (line : List ℕ) (lines : List (List ℕ)) (p : ScenarioProfile D)
      → Returns (Fewer lines) (load_pair a stod start line lines p)
  unfolding load_pair
  load_pair-Fewer none line lines p = omega arith
  load_pair-Fewer (some start) line lines p =
      Returns-and_then (Fewer lines) (extract_string start) _
        (λ key e. load_value-Fewer key (trim (behind 58 line)) lines p)

  -- A round leaves no more lines than there were behind its own.
  load_line-Fewer :
      (text : List ℕ) (lines : List (List ℕ)) (p : ScenarioProfile D)
      → Returns (Fewer lines) (load_line a stod text lines p)
  unfolding load_line
  load_line-Fewer text lines p =
      elim (is_skipped (trim text))
        as (λ b. Returns (Fewer lines) (
          if b
          then loaded (p, lines)
          else load_pair a stod (before 58 (trim text)) (trim text) lines p)) [
            | true ↦ omega arith
            | false ↦ load_pair-Fewer (before 58 (trim text)) (trim text) lines p
          ]

  -- The loop as a relation, without fuel: its rounds, one after the other, to the last line or to an
  -- exception.
  pub data Loads : List (List ℕ) → ScenarioProfile D → Result (ScenarioProfile D) → Type 0 where
    ends : {p : ScenarioProfile D} → Loads [] p (loaded p)
    throws :
        {line : List ℕ} {lines : List (List ℕ)} {p : ScenarioProfile D} (e : LoadError)
        → load_line a stod line lines p ≡ failed e
        → Loads (line ∷ lines) p (failed e)
    goes_on :
        {line : List ℕ} {lines : List (List ℕ)} {p : ScenarioProfile D} (p' : ScenarioProfile D)
        (rest : List (List ℕ)) {r : Result (ScenarioProfile D)}
        → load_line a stod line lines p ≡ loaded (p', rest)
        → Loads rest p' r
        → Loads (line ∷ lines) p r

  load_lines-Loads :
      (fuel : ℕ) (lines : List (List ℕ)) (p : ScenarioProfile D)
      → length lines ≤ fuel
      → Loads lines p (load_lines a stod fuel lines p)
  unfolding load_lines
  load_lines-Loads fuel [] p h = ends
  load_lines-Loads zero (line ∷ lines) p h = absurd (omega arith)
  load_lines-Loads (suc fuel) (line ∷ lines) p h =
      next (load_line a stod line lines p) refl (load_line-Fewer line lines p)
        (λ p' rest few. load_lines-Loads fuel rest p' (omega (arith, few)))
    where
      next :
          (r : Result (ScenarioProfile D × List (List ℕ)))
          → load_line a stod line lines p ≡ r
          → Returns (Fewer lines) r
          → ((p' : ScenarioProfile D) (rest : List (List ℕ))
              → length rest ≤ length lines
              → Loads rest p' (load_lines a stod fuel rest p'))
          → Loads (line ∷ lines) p (and_then r (λ n. load_lines a stod fuel n.1 n.0))
      next (loaded (p', rest)) e few ih = goes_on p' rest e (ih p' rest few)
      next (failed x) e few ih = throws x e

  -- The tests that a profile has passed.
  abbrev pub IsNamed : ScenarioProfile D → Type 0
  IsNamed p = (p.name ≢ []) × (0 < length p.allowed_types)

  tested-IsNamed :
      (name : List ℕ) (types : List TrackClass) (p : ScenarioProfile D)
      → p.name ≡ name
      → p.allowed_types ≡ types
      → Returns IsNamed (tested a stod name types p)
  tested-IsNamed [] types p e f = tt
  tested-IsNamed (c ∷ cs) [] p e f = tt
  tested-IsNamed (c ∷ cs) (t ∷ ts) p e f =
      (λ h. absurd (cc (sym e ∙ h)), omega (arith, ap length f))

  -- The loader ends on every text: its result is that of its loop over the lines, however many those
  -- are, and then of the two tests, and a profile that it returns has a name and at least one class.
  pub load_scenario_from_string-Loads :
      (text : List ℕ)
      → (r : Result (ScenarioProfile D)) × Loads (pieces line_feed text) (empty_profile a stod) r
        × (load_scenario_from_string a stod text ≡ and_then r (checked a stod))
        × Returns IsNamed (load_scenario_from_string a stod text)
  unfolding load_scenario_from_string
  load_scenario_from_string-Loads text =
      let lines = pieces line_feed text in
      let r = load_lines a stod (length lines) lines (empty_profile a stod) in
      (
        r,
        load_lines-Loads (length lines) lines (empty_profile a stod) (omega arith),
        refl,
        Returns-and_then IsNamed r (checked a stod)
            (λ p e. tested-IsNamed p.name p.allowed_types p refl refl),
      )
