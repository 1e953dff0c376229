-- ===== src/Logger/Lines.antt =====
-- src/common/logger.cpp: the columns of a line.
use net_node_gateway.Prelude.{
  repeat, length-repeat, ℕ, zero, suc, [], ◌∷◌, All, All-append, ◌+◌, ◌-◌, ◌<◌, ◌≡◌, refl, ap, ◌∙◌,
  List, ◌++◌, length, take, drop, arith, min, length-append, length-take, append_assoc,
  drop-append_self,
}
use net_node_gateway.Prelude.Text.{codes, decimal, length-decimal}
use net_node_gateway.Types.{
  Severity, EventCategory, debug, info, warn, alarm, fatal, tracking, threat, iff, network, health,
  control,
}
use net_node_gateway.Logger.{
  Stamp, severity_str, category_str, evt_buf, c_string, three_digits, log_line,
}

length-severity_str : (s : Severity) → length (severity_str s) ≡ 5
length-severity_str debug = refl
length-severity_str info = refl
length-severity_str warn = refl
length-severity_str alarm = refl
length-severity_str Severity.error = refl
length-severity_str fatal = refl

length-category_str : (c : EventCategory) → length (category_str c) ≡ 10
length-category_str tracking = refl
length-category_str threat = refl
length-category_str iff = refl
length-category_str EventCategory.engagement = refl
length-category_str network = refl
length-category_str health = refl
length-category_str control = refl

length-evt_buf : (name : List ℕ) → length (evt_buf name) ≡ 20
unfolding evt_buf
length-evt_buf name = omega (
  arith,
  length-append (take (min 20 (length name)) name) (repeat (20 - min 20 (length name)) b' '),
  length-take (min 20 (length name)) name,
  length-repeat {A = ℕ} (20 - min 20 (length name)) b' ',
)

-- A text without a NUL.
abbrev pub IsText : List ℕ → Type 0
IsText = All (λ c. 0 < c)

c_string-IsText : (cs : List ℕ) → IsText cs → c_string cs ≡ cs
unfolding c_string
c_string-IsText [] h = refl
c_string-IsText (c ∷ cs) (p, h) = ground (arith, c_string-IsText cs h)

IsText-take : (n : ℕ) (cs : List ℕ) → IsText cs → IsText (take n cs)
IsText-take zero cs h = tt
IsText-take (suc n) [] h = tt
IsText-take (suc n) (c ∷ cs) (p, h) = (p, IsText-take n cs h)

IsText-repeat : (n : ℕ) → IsText (repeat n b' ')
IsText-repeat zero = tt
IsText-repeat (suc n) = (omega arith, IsText-repeat n)

c_string-evt_buf : (name : List ℕ) → IsText name → c_string (evt_buf name) ≡ evt_buf name
unfolding evt_buf
c_string-evt_buf name h =
    let n = min 20 (length name) in
    c_string-IsText (take n name ++ repeat (20 - n) b' ') (
      All-append (λ c. 0 < c) (take n name) (repeat (20 - n) b' ') (IsText-take n name h)
        (IsText-repeat (20 - n)))

length-three_digits : (n : ℕ) → n < 1000 → length (three_digits n) ≡ 3
unfolding three_digits
length-three_digits n h = omega (
  arith,
  length-append (repeat (3 - length (decimal n)) b'0') (decimal n),
  length-repeat {A = ℕ} (3 - length (decimal n)) b'0',
  length-decimal n h,
)

-- what stands before the name of the event, behind the date
before : Stamp → Severity → EventCategory → List ℕ
before t sev cat =
    t.date
    ++ codes "."
    ++ three_digits t.ms
    ++ codes "Z"
    ++ codes " ["
    ++ severity_str sev
    ++ codes "] "
    ++ codes "["
    ++ category_str cat
    ++ codes "] "

length-before :
    (t : Stamp) (sev : Severity) (cat : EventCategory)
    → t.ms < 1000
    → length (before t sev cat) ≡ length t.date + 27
unfolding before
length-before t sev cat h =
    let a = t.date ++ codes "." in
    let b = a ++ three_digits t.ms in
    let c = b ++ codes "Z" in
    let d = c ++ codes " [" in
    let e = d ++ severity_str sev in
    let f = e ++ codes "] " in
    let g = f ++ codes "[" in
    let i = g ++ category_str cat in
    omega (
      arith,
      length-append t.date (codes "."),
      length-append a (three_digits t.ms),
      length-append b (codes "Z"),
      length-append c (codes " ["),
      length-append d (severity_str sev),
      length-append e (codes "] "),
      length-append f (codes "["),
      length-append g (category_str cat),
      length-append i (codes "] "),
      length-three_digits t.ms h,
      length-severity_str sev,
      length-category_str cat,
    )

-- a line of a name without a NUL
line_of :
    (t : Stamp) (sev : Severity) (cat : EventCategory) (name detail : List ℕ)
    → IsText name
    → log_line t sev cat name detail ≡ before t sev cat ++ evt_buf name ++ detail ++ codes "\n"
unfolding log_line before
line_of t sev cat name detail h =
    ap (λ text. before t sev cat ++ text ++ detail ++ codes "\n") (c_string-evt_buf name h)

-- The columns of a line do not depend on what is logged: behind the date and 27 more characters
-- stand the 20 of the event's name, cut or filled up with blanks, and then the detail to the end of
-- the line, for a name without a NUL and milliseconds below 1000.
pub log_line-columns :
    (t : Stamp) (sev : Severity) (cat : EventCategory) (name detail : List ℕ)
    → t.ms < 1000
    → IsText name
    → (drop (length t.date + 27) (log_line t sev cat name detail)
        ≡ evt_buf name ++ (detail ++ codes "\n"))
      × (drop (length t.date + 47) (log_line t sev cat name detail) ≡ detail ++ codes "\n")
      × (length (log_line t sev cat name detail) ≡ length t.date + 48 + length detail)
log_line-columns t sev cat name detail h text =
    let whole = line_of t sev cat name detail text in
    let p = before t sev cat in
    let n = p ++ evt_buf name in
    let split = append_assoc n detail (codes "\n") in
    (
      ap (drop (length t.date + 27))
            (whole ∙ split ∙ append_assoc p (evt_buf name) (detail ++ codes "\n"))
          ∙ drop-append_self (length t.date + 27) p (evt_buf name ++ (detail ++ codes "\n"))
              (length-before t sev cat h),
      ap (drop (length t.date + 47)) (whole ∙ split)
          ∙ drop-append_self (length t.date + 47) n (detail ++ codes "\n") (
              omega (
                arith,
                length-append p (evt_buf name),
                length-before t sev cat h,
                length-evt_buf name,
              )),
      omega (
        arith,
        ap (λ (cs : List ℕ). length cs) whole,
        length-append (n ++ detail) (codes "\n"),
        length-append n detail,
        length-append p (evt_buf name),
        length-before t sev cat h,
        length-evt_buf name,
      ),
    )
