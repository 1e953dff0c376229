-- ===== src/Simulator/Scenario/Fields.antt =====
-- src/sensor_sim/scenario_loader.cpp: how the loader takes a line apart.
use net_node_gateway.Prelude.{
  append-nil, append_assoc, ℕ, ◌≡◌, refl, sym, subst, ap, ◌∙◌, false, Option, none, some, List, [],
  ◌∷◌, ◌++◌, arith,
}
use net_node_gateway.Prelude.Text.{codes}
use net_node_gateway.Simulator.Machine.{Arithmetic}
use net_node_gateway.Simulator.Objects.{ScenarioProfile}
use net_node_gateway.Simulator.Scenario.{
  loaded, extract_string, is_skipped, extract_number, load_value, load_pair, load_line,
}
use net_node_gateway.Simulator.Scenario.Text.{
  quote, comma, trim, has, after, before, behind, before_last, pop_comma,
}
use net_node_gateway.Simulator.Scenario.Text.Laws.{
  StartsSolid, EndsSolid, EndsSolid-append, trim_lem, trim-blank, before-append, behind-append,
  before_last-append, has-append, IsPlain, IsPlain-StartsSolid, IsPlain-EndsSolid, pop_comma-plain,
  pop_comma-append,
}

-- A line of a file, with the text of its value and of what follows that.
abbrev pub field_line : List ℕ → List ℕ → List ℕ
field_line key value = codes "    \"" ++ (key ++ (codes "\": " ++ value))

abbrev quoted_key : List ℕ → List ℕ
quoted_key key = quote ∷ (key ++ quote ∷ [])

extract_string-after :
    (s rest text : List ℕ)
    → after quote s ≡ some rest
    → before_last quote rest ≡ some text
    → extract_string s ≡ loaded text
unfolding extract_string
extract_string-after s rest text p q = ground arith

pub extract_string-quoted :
    (s tail : List ℕ)
    → before_last quote tail ≡ none
    → extract_string (quote ∷ (s ++ quote ∷ tail)) ≡ loaded s
unfolding after
extract_string-quoted s tail h =
    extract_string-after (quote ∷ (s ++ quote ∷ tail)) (s ++ quote ∷ tail) s refl
      (before_last-append quote s tail h)

trim-plain : (t : List ℕ) → IsPlain t → trim t ≡ t
trim-plain t plain =
    trim_lem t (subst StartsSolid (append-nil t) (IsPlain-StartsSolid t [] plain))
      (IsPlain-EndsSolid t plain)

-- A line without its blanks.
abbrev solid_line : List ℕ → List ℕ → List ℕ
solid_line key value = quote ∷ (key ++ quote ∷ 58 ∷ 32 ∷ value)

trim-field_line :
    (key value : List ℕ) → EndsSolid value → trim (field_line key value) ≡ solid_line key value
trim-field_line key value e =
    let line = solid_line key value in
    trim-blank (32 ∷ 32 ∷ 32 ∷ line)
    ∙ trim-blank (32 ∷ 32 ∷ line)
    ∙ trim-blank (32 ∷ line)
    ∙ trim-blank line
    ∙ trim_lem line refl (
        EndsSolid-append (quote ∷ key) (quote ∷ 58 ∷ 32 ∷ value)
          (EndsSolid-append (quote ∷ 58 ∷ 32 ∷ []) value e))

-- The text before the colon of a line, which is the key in its quotes.
start-solid_line :
    (key value : List ℕ)
    → has 58 key ≡ false
    → (before 58 (solid_line key value) ≡ some (quoted_key key))
      × (behind 58 (solid_line key value) ≡ 32 ∷ value)
unfolding has
start-solid_line key value h =
    let split : solid_line key value ≡ quoted_key key ++ 58 ∷ 32 ∷ value =
      ap (◌∷◌ quote) (sym (append_assoc key (quote ∷ []) (58 ∷ 32 ∷ value))) in
    let free : has 58 (quoted_key key) ≡ false = ground (arith, has-append 58 key (quote ∷ [])) in
    (
      ap (before 58) split ∙ before-append 58 (quoted_key key) (32 ∷ value) free,
      ap (behind 58) split ∙ behind-append 58 (quoted_key key) (32 ∷ value) free,
    )

module _ {D : Type 0} (a : Arithmetic D) (stod : List ℕ → Option D) where
  load_line-trimmed :
      (text line start key value : List ℕ) (lines : List (List ℕ)) (p : ScenarioProfile D)
      → trim text ≡ line
      → is_skipped line ≡ false
      → before 58 line ≡ some start
      → extract_string start ≡ loaded key
      → trim (behind 58 line) ≡ value
      → load_line a stod text lines p ≡ load_value a stod key value lines p
  unfolding load_line load_pair
  load_line-trimmed text line start key value lines p t s b x v = rw (t, s, b, x, v) refl

  -- Such a line is its key and its value.
  pub load_line-field_line :
      (key value : List ℕ) (lines : List (List ℕ)) (p : ScenarioProfile D)
      → has 58 key ≡ false
      → StartsSolid value
      → EndsSolid value
      → load_line a stod (field_line key value) lines p ≡ load_value a stod key value lines p
  unfolding before_last
  load_line-field_line key value lines p h s e =
      let (start, rest) = start-solid_line key value h in
      load_line-trimmed (field_line key value) (solid_line key value) (quoted_key key) key value
        lines p (trim-field_line key value e) refl start (extract_string-quoted key [] refl)
        (ap trim rest ∙ trim-blank value ∙ trim_lem value s e)

  extract_number-trimmed :
      (s t u : List ℕ) (x : D)
      → trim s ≡ t
      → trim (pop_comma t) ≡ u
      → stod u ≡ some x
      → extract_number a stod s ≡ loaded x
  unfolding extract_number
  extract_number-trimmed s t u x p q r = ground arith

  pub extract_number-comma :
      (t : List ℕ) (x : D)
      → IsPlain t
      → stod t ≡ some x
      → extract_number a stod (t ++ comma ∷ []) ≡ loaded x
  extract_number-comma t x plain =
      extract_number-trimmed (t ++ comma ∷ []) (t ++ comma ∷ []) t x
        (trim_lem (t ++ comma ∷ []) (IsPlain-StartsSolid t (comma ∷ []) plain)
          (EndsSolid-append t (comma ∷ []) refl))
        (ap trim (pop_comma-append t) ∙ trim-plain t plain)

  pub extract_number-plain :
      (t : List ℕ) (x : D) → IsPlain t → stod t ≡ some x → extract_number a stod t ≡ loaded x
  extract_number-plain t x plain =
      extract_number-trimmed t t t x (trim-plain t plain)
        (ap trim (pop_comma-plain t plain.1) ∙ trim-plain t plain)
