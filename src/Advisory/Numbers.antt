-- ===== src/Advisory/Numbers.antt =====
-- internal/advisory/guard.go: the numbers in a text, and the whitelist of numbers.
pub mod Scan
pub mod Begin
pub mod Whitelist
use audiax_backend.Common.{
  ℕ, ◌≡◌, Bool, true, false, ◌&&◌, ◌||◌, Option, none, some, List, [], ◌∷◌, ◌++◌, nat_eq, any,
  if◌then◌else◌,
}
use audiax_backend.Common.Text.{Text}
use audiax_backend.Common.Text.Decimal.{is_digit}
use audiax_backend.Floats.{Floats}
use audiax_backend.Advisory.{Cell}

pub data Kind : Type 0 where
  digit separator other : Kind

unfoldable pub kind : ℕ → Kind
kind c = if is_digit c then digit else if nat_eq c b'.' || nat_eq c b',' then separator else other

-- Where the scan for `\d+(?:[.,]\d+)?` stands: outside a match, in its first digits, behind a
-- separator that is part of the match only if a digit follows, in the digits behind it.
pub data Place : Type 0 where
  outside : Place
  whole : Text → Place
  pending : Text → ℕ → Place
  fraction : Text → Place

-- numberPattern.FindAllString(text, -1)
unfoldable pub find_numbers : Place → Text → List Text
find_numbers outside [] = []
find_numbers (whole m) [] = m ∷ []
find_numbers (pending m sep) [] = m ∷ []
find_numbers (fraction m) [] = m ∷ []
find_numbers outside (c ∷ s) = elim (kind c) [
  | digit ↦ find_numbers (whole (c ∷ [])) s
  | separator ↦ find_numbers outside s
  | other ↦ find_numbers outside s
]
find_numbers (whole m) (c ∷ s) = elim (kind c) [
  | digit ↦ find_numbers (whole (m ++ c ∷ [])) s
  | separator ↦ find_numbers (pending m c) s
  | other ↦ m ∷ find_numbers outside s
]
find_numbers (pending m sep) (c ∷ s) = elim (kind c) [
  | digit ↦ find_numbers (fraction (m ++ sep ∷ c ∷ [])) s
  | separator ↦ m ∷ find_numbers outside s
  | other ↦ m ∷ find_numbers outside s
]
find_numbers (fraction m) (c ∷ s) = elim (kind c) [
  | digit ↦ find_numbers (fraction (m ++ c ∷ [])) s
  | separator ↦ m ∷ find_numbers outside s
  | other ↦ m ∷ find_numbers outside s
]

-- strings.Replace(m, ",", ".", 1)
unfoldable pub normalized : Text → Text
normalized [] = []
normalized (c ∷ s) = if nat_eq c b',' then b'.' ∷ s else c ∷ normalized s

module _ (fl : Floats) where
  open fl use {Float}

  -- the loop of `extractNumbers`
  unfoldable pub parse_all : List Text → List Float
  parse_all [] = []
  parse_all (m ∷ ms) = elim (fl.parse (normalized m)) [
    | none ↦ parse_all ms
    | some v ↦ v ∷ parse_all ms
  ]

  unfoldable pub extract_numbers : Text → List Float
  extract_numbers s = parse_all (find_numbers outside s)

  unfoldable pub checklist_numbers : List Text → List Float
  checklist_numbers [] = []
  checklist_numbers (item ∷ items) = extract_numbers item ++ checklist_numbers items

  -- The source appends to one list; the hours come first.
  unfoldable pub cell_numbers : Cell → List Float
  cell_numbers cell =
      fl.literal cell.recheck_hours 0
      ∷ (extract_numbers cell.safety_gate
          ++ (extract_numbers cell.escalate_if
              ++ (extract_numbers cell.urgency ++ checklist_numbers cell.checklist)))

  abbrev pub ordinal_whitelist_min : Float
  ordinal_whitelist_min = fl.literal 10 1

  abbrev pub ordinal_whitelist_max : Float
  ordinal_whitelist_max = fl.literal 90 1

  abbrev pub number_tolerance : Float
  number_tolerance = fl.literal 5 2

  unfoldable pub is_ordinal : Float → Bool
  is_ordinal n =
      fl.eq n (fl.trunc n) && fl.le ordinal_whitelist_min n && fl.le n ordinal_whitelist_max

  unfoldable pub is_near : Float → Float → Bool
  is_near n a = fl.lt (fl.abs (fl.sub n a)) number_tolerance

  unfoldable pub number_allowed : Float → List Float → Bool
  number_allowed n allowed = if is_ordinal n then true else any (λ a. is_near n a) allowed

  -- the loop of `firstDisallowedNumber`, over the numbers of the text
  unfoldable pub first_disallowed : List Float → List Float → Option Float
  first_disallowed [] allowed = none
  first_disallowed (n ∷ ns) allowed =
      if number_allowed n allowed then first_disallowed ns allowed else some n

  unfoldable pub first_disallowed_number : Text → List Float → Option Float
  first_disallowed_number s allowed = first_disallowed (extract_numbers s) allowed
