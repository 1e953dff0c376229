-- ===== src/Simulator/Scenario/Text.antt =====
-- src/sensor_sim/scenario_loader.cpp: what it uses of `std::string` and `std::getline`.
pub mod Laws
use net_node_gateway.Prelude.{
  is_empty, ℕ, suc, Bool, false, Option, none, some, List, [], ◌∷◌, ◌==◌, ◌&&◌, ◌||◌, if◌then◌else◌,
}

abbrev pub quote : ℕ
quote = 34

abbrev pub line_feed : ℕ
line_feed = 10

abbrev pub comma : ℕ
comma = 44

-- the characters of " \t\n\r"
abbrev pub is_space : ℕ → Bool
is_space c = c == 32 || c == 9 || c == 10 || c == 13

unfoldable pub skip_spaces : List ℕ → List ℕ
skip_spaces [] = []
skip_spaces (c ∷ cs) = if is_space c then skip_spaces cs else c ∷ cs

unfoldable pub drop_spaces : List ℕ → List ℕ
drop_spaces [] = []
drop_spaces (c ∷ cs) =
    let rest = drop_spaces cs in if is_space c && is_empty rest then [] else c ∷ rest

unfoldable pub trim : List ℕ → List ℕ
unfolding skip_spaces drop_spaces
trim s = drop_spaces (skip_spaces s)

-- `find(c) != npos`
unfoldable pub has : ℕ → List ℕ → Bool
has c [] = false
has c (x ∷ xs) = x == c || has c xs

-- `find(c)`
unfoldable pub index_of : ℕ → List ℕ → Option ℕ
index_of c [] = none
index_of c (x ∷ xs) =
    if x == c then some 0 else (elim (index_of c xs) [ none ↦ none | some i ↦ some (suc i) ])

-- the text before the first such character, `none` without one
unfoldable pub before : ℕ → List ℕ → Option (List ℕ)
before c [] = none
before c (x ∷ xs) =
    if x == c then some [] else (elim (before c xs) [ none ↦ none | some t ↦ some (x ∷ t) ])

-- the text behind the first such character
unfoldable pub after : ℕ → List ℕ → Option (List ℕ)
after c [] = none
after c (x ∷ xs) = if x == c then some xs else after c xs

-- the text behind the first such character, nothing without one
abbrev pub behind : ℕ → List ℕ → List ℕ
behind c [] = []
behind c (x ∷ xs) = if x == c then xs else behind c xs

-- the text before the last such character
unfoldable pub before_last : ℕ → List ℕ → Option (List ℕ)
before_last c [] = none
before_last c (x ∷ xs) = elim (before_last c xs) [
  | none ↦ if x == c then some [] else none
  | some t ↦ some (x ∷ t)
]

-- `if (!t.empty() && t.back() == ',') t.pop_back()`
unfoldable pub pop_comma : List ℕ → List ℕ
pop_comma [] = []
pop_comma (c ∷ []) = if c == comma then [] else c ∷ []
pop_comma (c ∷ d ∷ cs) = c ∷ pop_comma (d ∷ cs)

-- a character before the first of the pieces
abbrev pub onto_first : ℕ → List (List ℕ) → List (List ℕ)
onto_first c [] = (c ∷ []) ∷ []
onto_first c (p ∷ ps) = (c ∷ p) ∷ ps

-- What `getline` gives until it fails: nothing stands behind a delimiter at the end.
unfoldable pub pieces : ℕ → List ℕ → List (List ℕ)
pieces d [] = []
pieces d (c ∷ cs) = if c == d then [] ∷ pieces d cs else onto_first c (pieces d cs)

-- the text before a quote that ends it
unfoldable pub open_end : List ℕ → Option (List ℕ)
open_end [] = none
open_end (c ∷ []) = if c == quote then some [] else none
open_end (c ∷ d ∷ cs) = elim (open_end (d ∷ cs)) [ none ↦ none | some t ↦ some (c ∷ t) ]

-- `item.substr(1, item.size() - 2)` when quotes stand at both its ends
unfoldable pub unquote : List ℕ → Option (List ℕ)
unfolding open_end
unquote [] = none
unquote (c ∷ cs) = if c == quote then open_end cs else none

-- The quoted ones of some pieces, trimmed.
unfoldable pub strings : List (List ℕ) → List (List ℕ)
unfolding trim unquote
strings [] = []
strings (item ∷ items) =
    let rest = strings items in elim (unquote (trim item)) [ none ↦ rest | some t ↦ t ∷ rest ]
