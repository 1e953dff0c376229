-- ===== src/Simulator/Scenario/Text/Laws.antt =====
-- src/sensor_sim/scenario_loader.cpp: laws of the operations on texts that the parser uses.
use net_node_gateway.Prelude.{
  ℕ, ◌≡◌, ◌≢◌, refl, ap, ◌∙◌, inl, inr, Bool, true, false, not, none, some, List, [], ◌∷◌, ◌++◌,
  length, All, arith, ◌==◌, ◌||◌, Bool-cases,
}
use net_node_gateway.Simulator.Scenario.Text.{
  quote, comma, line_feed, is_space, skip_spaces, drop_spaces, trim, has, index_of, before, behind,
  before_last, pop_comma, pieces, open_end,
}

-- A text that starts with no space, or ends with none.
abbrev pub StartsSolid : List ℕ → Type 0
StartsSolid [] = ⊥
StartsSolid (c ∷ cs) = is_space c ≡ false

abbrev pub EndsSolid : List ℕ → Type 0
EndsSolid [] = ⊥
EndsSolid (c ∷ []) = is_space c ≡ false
EndsSolid (c ∷ d ∷ cs) = EndsSolid (d ∷ cs)

pub EndsSolid-append : (xs ys : List ℕ) → EndsSolid ys → EndsSolid (xs ++ ys)
EndsSolid-append [] ys h = h
EndsSolid-append (x ∷ []) [] h = absurd h
EndsSolid-append (x ∷ []) (y ∷ ys) h = h
EndsSolid-append (x ∷ y ∷ xs) ys h = EndsSolid-append (y ∷ xs) ys h

skip_spaces-StartsSolid : (t : List ℕ) → StartsSolid t → skip_spaces t ≡ t
unfolding skip_spaces
skip_spaces-StartsSolid [] h = absurd h
skip_spaces-StartsSolid (c ∷ cs) h = rw h

drop_spaces-EndsSolid : (t : List ℕ) → EndsSolid t → drop_spaces t ≡ t
unfolding drop_spaces
drop_spaces-EndsSolid [] h = absurd h
drop_spaces-EndsSolid (c ∷ []) h = rw h
drop_spaces-EndsSolid (c ∷ d ∷ cs) h =
    let ih = drop_spaces-EndsSolid (d ∷ cs) h in
    elim (Bool-cases (is_space c)) [ inl e ↦ rw (e, ih) | inr e ↦ rw (e, ih) ]

pub trim_lem : (t : List ℕ) → StartsSolid t → EndsSolid t → trim t ≡ t
unfolding trim
trim_lem t s e = ap drop_spaces (skip_spaces-StartsSolid t s) ∙ drop_spaces-EndsSolid t e

-- Blanks before a text are trimmed.
pub trim-blank : (t : List ℕ) → trim (32 ∷ t) ≡ trim t
unfolding trim skip_spaces
trim-blank t = refl

pub before-append : (c : ℕ) (xs ys : List ℕ) → has c xs ≡ false → before c (xs ++ c ∷ ys) ≡ some xs
unfolding before has
before-append c [] ys h = ground arith
before-append c (x ∷ xs) ys h = ground (arith, before-append c xs ys)

pub behind-append : (c : ℕ) (xs ys : List ℕ) → has c xs ≡ false → behind c (xs ++ c ∷ ys) ≡ ys
unfolding has
behind-append c [] ys h = ground arith
behind-append c (x ∷ xs) ys h = ground (arith, behind-append c xs ys)

pub before_last-append :
    (c : ℕ) (xs ys : List ℕ) → before_last c ys ≡ none → before_last c (xs ++ c ∷ ys) ≡ some xs
unfolding before_last
before_last-append c [] ys h = rw h (ground arith)
before_last-append c (x ∷ xs) ys h = rw (before_last-append c xs ys h)

pub has-append : (c : ℕ) (xs ys : List ℕ) → has c (xs ++ ys) ≡ (has c xs || has c ys)
unfolding has
has-append c [] ys = refl
has-append c (x ∷ xs) ys = ground (arith, has-append c xs ys)

pub index_of-append :
    (c : ℕ) (xs ys : List ℕ) → has c xs ≡ false → index_of c (xs ++ c ∷ ys) ≡ some (length xs)
unfolding index_of has
index_of-append c [] ys h = ground arith
index_of-append c (x ∷ xs) ys h = ground (arith, index_of-append c xs ys)

-- The first of the pieces of a text ends before the first delimiter.
pub pieces-append :
    (d : ℕ) (xs ys : List ℕ) → has d xs ≡ false → pieces d (xs ++ d ∷ ys) ≡ xs ∷ pieces d ys
unfolding pieces has
pieces-append d [] ys h = ground arith
pieces-append d (x ∷ xs) ys h = ground (arith, pieces-append d xs ys)

pub pieces_last :
    (d x : ℕ) (xs : List ℕ) → has d (x ∷ xs) ≡ false → pieces d (x ∷ xs) ≡ (x ∷ xs) ∷ []
unfolding pieces has
pieces_last d x [] h = ground arith
pieces_last d x (y ∷ xs) h = ground (arith, pieces_last d y xs)

-- Lines, each with its line feed.
abbrev pub unlines : List (List ℕ) → List ℕ
unlines [] = []
unlines (line ∷ lines) = line ++ line_feed ∷ unlines lines

pub pieces-unlines :
    (lines : List (List ℕ))
    → All (λ l. has line_feed l ≡ false) lines
    → pieces line_feed (unlines lines) ≡ lines
unfolding pieces
pieces-unlines [] h = refl
pieces-unlines (line ∷ lines) (p, h) =
    pieces-append line_feed line (unlines lines) p ∙ ap (◌∷◌ line) (pieces-unlines lines h)

-- A character of the text of a number.
abbrev pub is_plain : ℕ → Bool
is_plain c = not (is_space c || c == comma)

abbrev pub IsPlain : List ℕ → Type 0
IsPlain t = (t ≢ []) × All (λ c. is_plain c ≡ true) t

pub plain-solid : (c : ℕ) → is_plain c ≡ true → is_space c ≡ false
plain-solid c h = elim (Bool-cases (is_space c)) [ inl e ↦ cc (e, h) | inr e ↦ e ]

pub IsPlain-StartsSolid : (t rest : List ℕ) → IsPlain t → StartsSolid (t ++ rest)
IsPlain-StartsSolid [] rest h = absurd (h.0 refl)
IsPlain-StartsSolid (c ∷ cs) rest h = plain-solid c h.1.0

plain-EndsSolid : (c : ℕ) (t : List ℕ) → All (λ c. is_plain c ≡ true) (c ∷ t) → EndsSolid (c ∷ t)
plain-EndsSolid c [] h = plain-solid c h.0
plain-EndsSolid c (d ∷ t) h = plain-EndsSolid d t h.1

pub IsPlain-EndsSolid : (t : List ℕ) → IsPlain t → EndsSolid t
IsPlain-EndsSolid [] h = absurd (h.0 refl)
IsPlain-EndsSolid (c ∷ t) h = plain-EndsSolid c t h.1

-- Without a comma there is none to take off, and a comma at the end is.
pub pop_comma-plain : (t : List ℕ) → All (λ c. is_plain c ≡ true) t → pop_comma t ≡ t
unfolding pop_comma
pop_comma-plain [] h = refl
pop_comma-plain (c ∷ []) h = ground arith
pop_comma-plain (c ∷ d ∷ t) h = ap (◌∷◌ c) (pop_comma-plain (d ∷ t) h.1)

pub pop_comma-append : (t : List ℕ) → pop_comma (t ++ comma ∷ []) ≡ t
unfolding pop_comma
pop_comma-append [] = refl
pop_comma-append (c ∷ []) = refl
pop_comma-append (c ∷ d ∷ t) = ap (◌∷◌ c) (pop_comma-append (d ∷ t))

-- A text in quotes is the text again.
pub open_end-append : (t : List ℕ) → open_end (t ++ quote ∷ []) ≡ some t
unfolding open_end
open_end-append [] = refl
open_end-append (c ∷ []) = refl
open_end-append (c ∷ d ∷ t) = rw (open_end-append (d ∷ t))

pub plain-line_feed : (t : List ℕ) → All (λ c. is_plain c ≡ true) t → has line_feed t ≡ false
unfolding has
plain-line_feed [] h = refl
plain-line_feed (c ∷ t) h = ground (arith, plain-line_feed t)
