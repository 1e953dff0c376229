-- ===== src/Simulator/Scenario/Printed.antt =====
-- src/sensor_sim/scenario_loader.cpp: the form of the scenario files, and that the parser reads it.
use net_node_gateway.Prelude.{
  append-nil, append_assoc, ℕ, suc, ◌≡◌, refl, sym, ap, ◌∙◌, true, false, some, List, [], ◌∷◌, ◌++◌,
  length, arith, map, ◌==◌, take-append_self,
}
use net_node_gateway.Prelude.Text.{codes}
use net_node_gateway.Types.{
  TrackClass, unknown, fixed_wing, rotary_wing, uav_small, uav_large, missile, rocket_artillery,
  bird, decoy,
}
use net_node_gateway.Simulator.Scenario.{
  loaded, extract_string_array, string_to_track_class, push_types, gather, inner,
}
use net_node_gateway.Simulator.Scenario.Text.{
  quote, comma, line_feed, trim, has, index_of, pieces, unquote, strings, skip_spaces, drop_spaces,
  open_end,
}
use net_node_gateway.Simulator.Scenario.Text.Laws.{
  index_of-append, pieces-append, pieces_last, has-append,
}

-- The names of the classes in a scenario file.
abbrev pub class_name : TrackClass → List ℕ
class_name unknown = codes "UNKNOWN"
class_name fixed_wing = codes "FIXED_WING"
class_name rotary_wing = codes "ROTARY_WING"
class_name uav_small = codes "UAV_SMALL"
class_name uav_large = codes "UAV_LARGE"
class_name missile = codes "MISSILE"
class_name rocket_artillery = codes "ROCKET_ARTILLERY"
class_name bird = codes "BIRD"
class_name decoy = codes "DECOY"

abbrev quoted_class : TrackClass → List ℕ
quoted_class t = quote ∷ class_name t ++ quote ∷ []

-- The classes behind the first, each behind a comma and a blank.
abbrev more_classes : List TrackClass → List ℕ
more_classes [] = []
more_classes (t ∷ ts) = comma ∷ ((32 ∷ quoted_class t) ++ more_classes ts)

abbrev pub classes : List TrackClass → List ℕ
classes [] = []
classes (t ∷ ts) = quoted_class t ++ more_classes ts

-- What is computed of each class.
abbrev IsClassName : TrackClass → Type 0
IsClassName t =
    (string_to_track_class (class_name t) ≡ loaded t)
    × (has comma (quoted_class t) ≡ false)
    × (has 93 (quoted_class t) ≡ false)
    × (has line_feed (quoted_class t) ≡ false)
    × (unquote (trim (32 ∷ quoted_class t)) ≡ some (class_name t))
    × (unquote (trim (quoted_class t)) ≡ some (class_name t))

class_name_lem : (t : TrackClass) → IsClassName t
unfolding string_to_track_class has unquote trim skip_spaces drop_spaces open_end
class_name_lem unknown = (refl, refl, refl, refl, refl, refl)
class_name_lem fixed_wing = (refl, refl, refl, refl, refl, refl)
class_name_lem rotary_wing = (refl, refl, refl, refl, refl, refl)
class_name_lem uav_small = (refl, refl, refl, refl, refl, refl)
class_name_lem uav_large = (refl, refl, refl, refl, refl, refl)
class_name_lem missile = (refl, refl, refl, refl, refl, refl)
class_name_lem rocket_artillery = (refl, refl, refl, refl, refl, refl)
class_name_lem bird = (refl, refl, refl, refl, refl, refl)
class_name_lem decoy = (refl, refl, refl, refl, refl, refl)

-- A character that is in no name, as ']' and the line feed, is nowhere among the classes.
has-more_classes :
    (c : ℕ)
    → (comma == c) ≡ false
    → (32 == c) ≡ false
    → ((t : TrackClass) → has c (quoted_class t) ≡ false)
    → (ts : List TrackClass) → has c (more_classes ts) ≡ false
unfolding has
has-more_classes c p q f [] = refl
has-more_classes c p q f (t ∷ ts) =
    let ih = has-more_classes c p q f ts in
    ground (arith, has-append c (quoted_class t) (more_classes ts), f t)

pub classes-free :
    (ts : List TrackClass) → (has 93 (classes ts) ≡ false) × (has line_feed (classes ts) ≡ false)
unfolding has
classes-free [] = (refl, refl)
classes-free (t ∷ ts) =
    let k = class_name_lem t in
    (
      has-append 93 (quoted_class t) (more_classes ts)
          ∙ rw (k.2, has-more_classes 93 refl refl (λ t. (class_name_lem t).2) ts),
      has-append line_feed (quoted_class t) (more_classes ts)
          ∙ rw (k.3, has-more_classes line_feed refl refl (λ t. (class_name_lem t).3) ts),
    )

strings-nil : strings [] ≡ []
unfolding strings
strings-nil = refl

strings-cons :
    (item s : List ℕ) (items : List (List ℕ))
    → unquote (trim item) ≡ some s
    → strings (item ∷ items) ≡ s ∷ strings items
unfolding strings
strings-cons item s items h = ground arith

strings-more :
    (x : ℕ) (w s : List ℕ) (ts : List TrackClass)
    → has comma (x ∷ w) ≡ false
    → unquote (trim (x ∷ w)) ≡ some s
    → strings (pieces comma ((x ∷ w) ++ more_classes ts)) ≡ s ∷ map class_name ts
unfolding has
strings-more x w s [] p q =
    rw (append-nil, pieces_last comma x w p) (strings-cons (x ∷ w) s [] q ∙ rw strings-nil)
strings-more x w s (t ∷ ts) p q =
    let k = class_name_lem t in
    ap strings (pieces-append comma (x ∷ w) ((32 ∷ quoted_class t) ++ more_classes ts) p)
    ∙ strings-cons (x ∷ w) s _ q
    ∙ ap (◌∷◌ s) (strings-more 32 (quoted_class t) (class_name t) ts k.1 k.4)

pub push_types-names :
    (types ts : List TrackClass) → push_types types (map class_name ts) ≡ loaded (types ++ ts)
unfolding push_types
push_types-names types [] = ap loaded (sym (append-nil types))
push_types-names types (t ∷ ts) =
    rw (class_name_lem t).0
      (push_types-names (types ++ t ∷ []) ts ∙ ap loaded (append_assoc types (t ∷ []) ts))

-- The value of a line with classes.
abbrev pub array : List TrackClass → List ℕ
array ts = 91 ∷ (classes ts ++ 93 ∷ comma ∷ [])

gather-has :
    (text : List ℕ) (lines : List (List ℕ)) → has 93 text ≡ true → gather text lines ≡ (text, lines)
unfolding gather
gather-has text [] h = refl
gather-has text (line ∷ lines) h = rw h refl

pub gather-array :
    (ts : List TrackClass) (lines : List (List ℕ)) → gather (array ts) lines ≡ (array ts, lines)
unfolding has
gather-array ts lines =
    gather-has (array ts) lines
      (has-append 93 (91 ∷ classes ts) (93 ∷ comma ∷ []) ∙ rw (classes-free ts).0)

strings-classes :
    (t : TrackClass) (ts : List TrackClass)
    → strings (pieces comma (classes (t ∷ ts))) ≡ map class_name (t ∷ ts)
strings-classes t ts =
    let k = class_name_lem t in
    strings-more quote (class_name t ++ quote ∷ []) (class_name t) ts k.1 k.5

extract_string_array-index :
    (s : List ℕ) (i j : ℕ)
    → index_of 91 s ≡ some i
    → index_of 93 s ≡ some j
    → extract_string_array s ≡ loaded (strings (pieces comma (inner s i j)))
unfolding extract_string_array
extract_string_array-index s i j p q = ground arith

inner-array : (ts : List TrackClass) → inner (array ts) 0 (suc (length (classes ts))) ≡ classes ts
inner-array ts =
    ground (arith, take-append_self (length (classes ts)) (classes ts) (93 ∷ comma ∷ []) refl)

-- The classes of a line that holds some are these.
pub extract_string_array-array :
    (t : TrackClass) (ts : List TrackClass)
    → extract_string_array (array (t ∷ ts)) ≡ loaded (map class_name (t ∷ ts))
unfolding index_of has
extract_string_array-array t ts =
    extract_string_array-index (array (t ∷ ts)) 0 (suc (length (classes (t ∷ ts)))) refl
      (index_of-append 93 (91 ∷ classes (t ∷ ts)) (comma ∷ []) (rw (classes-free (t ∷ ts)).0))
    ∙ ap (λ s. loaded (strings (pieces comma s))) (inner-array (t ∷ ts))
    ∙ ap loaded (strings-classes t ts)
