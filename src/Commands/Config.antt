-- ===== src/Commands/Config.antt =====
-- src/control_node/command_handler.cpp: the map `config_` with text keys, as an association list.
use net_node_gateway.Prelude.{ℕ, ◌≡◌, refl, List, [], ◌∷◌, if◌then◌else◌, arith}
use net_node_gateway.Prelude.Text.{text_eq, text_eq_iff}

abbrev pub TextMap : Type 0
TextMap = List (List ℕ × List ℕ)

-- `find`, with "" where the key is missing
unfoldable pub lookup : List ℕ → TextMap → List ℕ
lookup key [] = []
lookup key ((k, v) ∷ m) = if text_eq k key then v else lookup key m

-- `config_[key] = value`
unfoldable pub assign : List ℕ → List ℕ → TextMap → TextMap
assign key value [] = (key, value) ∷ []
assign key value ((k, v) ∷ m) =
    if text_eq k key then (key, value) ∷ m else (k, v) ∷ assign key value m

pub lookup-assign :
    (key other value : List ℕ) (m : TextMap)
    → lookup other (assign key value m) ≡ (if text_eq key other then value else lookup other m)
unfolding lookup assign
lookup-assign key other value [] = refl
lookup-assign key other value ((k, v) ∷ m) = ground (
  arith,
  text_eq_iff k key,
  text_eq_iff k other,
  text_eq_iff key other,
  lookup-assign key other value m,
)
