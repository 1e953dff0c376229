-- ===== src/Commands/Text.antt =====
-- src/control_node/command_handler.cpp: the pieces of the standard library that take a command
-- apart, in the "C" locale.
use net_node_gateway.Prelude.{
  ℕ, ◌-◌, Bool, false, ◌&&◌, ◌||◌, not, List, [], ◌∷◌, leb, ◌==◌, if◌then◌else◌, map,
}

-- `::toupper`
unfoldable pub to_upper : ℕ → ℕ
to_upper c = if leb 97 c && leb c 122 then c - 32 else c

unfoldable pub upper : List ℕ → List ℕ
unfolding to_upper
upper = map to_upper

-- `isspace`: what `>>` skips and what ends a word
abbrev pub is_space : ℕ → Bool
is_space c = c == 32 || (leb 9 c && leb c 13)

-- the characters of " \t"
abbrev pub is_blank : ℕ → Bool
is_blank c = c == 32 || c == 9

unfoldable pub drop_while : (ℕ → Bool) → List ℕ → List ℕ
drop_while p [] = []
drop_while p (c ∷ cs) = if p c then drop_while p cs else c ∷ cs

unfoldable pub take_while : (ℕ → Bool) → List ℕ → List ℕ
take_while p [] = []
take_while p (c ∷ cs) = if p c then c ∷ take_while p cs else []

-- `iss >> verb`
unfoldable pub first_word : List ℕ → List ℕ
unfolding drop_while take_while
first_word s = take_while (λ c. not (is_space c)) (drop_while is_space s)

-- what the stream still holds behind the word
unfoldable pub after_word : List ℕ → List ℕ
unfolding drop_while
after_word s = drop_while (λ c. not (is_space c)) (drop_while is_space s)

-- `std::getline(iss, rest)`
unfoldable pub first_line : List ℕ → List ℕ
unfolding take_while
first_line s = take_while (λ c. not (c == 10)) s

-- `find_first_not_of(" \t")` and `substr` from there
unfoldable pub trim_front : List ℕ → List ℕ
unfolding drop_while
trim_front s = drop_while is_blank s

-- a character before what is kept of the rest
abbrev keep : ℕ → List ℕ → List ℕ
keep c [] = if is_blank c then [] else c ∷ []
keep c (d ∷ ds) = c ∷ d ∷ ds

-- `find_last_not_of(" \t")` and `substr` up to there
unfoldable pub trim_back : List ℕ → List ℕ
trim_back [] = []
trim_back (c ∷ cs) = keep c (trim_back cs)

unfoldable pub trim : List ℕ → List ℕ
unfolding trim_front trim_back
trim s = trim_back (trim_front s)

-- `find('=')` finds something
unfoldable pub has_eq : List ℕ → Bool
has_eq [] = false
has_eq (c ∷ cs) = c == b'=' || has_eq cs

-- `substr(0, eq_pos)`
unfoldable pub before_eq : List ℕ → List ℕ
unfolding take_while
before_eq s = take_while (λ c. not (c == b'=')) s

abbrev pub drop_one : List ℕ → List ℕ
drop_one [] = []
drop_one (c ∷ cs) = cs

-- `substr(eq_pos + 1)`
unfoldable pub after_eq : List ℕ → List ℕ
unfolding drop_while
after_eq s = drop_one (drop_while (λ c. not (c == b'=')) s)
