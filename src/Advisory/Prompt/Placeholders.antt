-- ===== src/Advisory/Prompt/Placeholders.antt =====
-- internal/advisory/prompt.go: a line as literals and placeholders `\{(\w+)\}`.
use audiax_backend.Common.{
  ℕ, Bool, false, ◌&&◌, ◌||◌, Option, none, some, List, [], ◌∷◌, ◌++◌, leb, nat_eq, any,
  if◌then◌else◌,
}
use audiax_backend.Common.Text.{Text, text, ◌==◌, is_empty}

-- map[string]string, in the order of the source; a missing key gives ""
abbrev pub Values : Type 0
Values = List (Text × Text)

unfoldable pub get : Values → Text → Text
get [] name = []
get ((k, v) ∷ values) name = if k == name then v else get values name

pub data Piece : Type 0 where
  literal : ℕ → Piece
  placeholder : Text → Piece

pub data Shape : Type 0 where
  opening closing word other : Shape

-- `\w` is ASCII
unfoldable pub shape : ℕ → Shape
shape c =
    if nat_eq c b'{'
    then opening
    else if nat_eq c b'}'
    then closing
    else if (leb b'0' c && leb c b'9')
        || (leb b'A' c && leb c b'Z')
        || nat_eq c b'_'
        || (leb b'a' c && leb c b'z')
    then word
    else other

abbrev pub literals : Text → List Piece → List Piece
literals [] ps = ps
literals (c ∷ s) ps = literal c ∷ literals s ps

-- `{name}` if there is a name, else the two braces
abbrev pub closed : Text → List Piece → List Piece
closed [] ps = literals (text "{}") ps
closed (c ∷ name) ps = placeholder (c ∷ name) ∷ ps

-- The state is the word behind the last brace that may open a placeholder.
unfoldable pub pieces : Option Text → Text → List Piece
pieces none [] = []
pieces (some w) [] = literals (b'{' ∷ w) []
pieces none (c ∷ s) = elim (shape c) [
  | opening ↦ pieces (some []) s
  | closing ↦ literal c ∷ pieces none s
  | word ↦ literal c ∷ pieces none s
  | other ↦ literal c ∷ pieces none s
]
pieces (some w) (c ∷ s) = elim (shape c) [
  | opening ↦ literals (b'{' ∷ w) (pieces (some []) s)
  | closing ↦ closed w (pieces none s)
  | word ↦ pieces (some (w ++ c ∷ [])) s
  | other ↦ literals (b'{' ∷ w) (literal c ∷ pieces none s)
]

abbrev pub fill : (Text → Text) → List Piece → Text
fill value [] = []
fill value (literal c ∷ ps) = c ∷ fill value ps
fill value (placeholder name ∷ ps) = value name ++ fill value ps

-- ReplaceAllStringFunc: what is put in is not scanned again
unfoldable pub substitute : Text → Values → Text
substitute line values = fill (get values) (pieces none line)

abbrev pub omittable_if_empty : Text → Bool
omittable_if_empty name =
    name == text "z" || name == text "dominant_indicator" || name == text "calibration_quality"

abbrev pub has_empty : Values → Piece → Bool
has_empty values (literal c) = false
has_empty values (placeholder name) = omittable_if_empty name && is_empty (get values name)

unfoldable pub dropped_by_empty_placeholder : Text → Values → Bool
dropped_by_empty_placeholder line values = any (has_empty values) (pieces none line)
