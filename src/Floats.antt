-- ===== src/Floats.antt =====
-- float64 and the calls on it that the program makes. IEEE arithmetic and the conversions of
-- strconv are taken as given; `FloatLaws` is what the theorems use of them.
use audiax_backend.Common.{ℕ, ◌≡◌, Bool, true, Option, some, ◌∷◌}
use audiax_backend.Common.Text.{Text}
use audiax_backend.Common.Text.Decimal.{is_digit}

pub record Floats : Type 1 where
  pub Float : Type 0
  -- `literal m k` is the float64 of the decimal m / 10^k.
  pub literal : ℕ → ℕ → Float
  -- strconv.ParseFloat(s, 64), with `none` for an error
  pub parse : Text → Option Float
  -- the verb %v, and strconv.FormatFloat(v, 'f', 1, 64)
  pub show : Float → Text
  pub format1 : Float → Text
  pub sub : Float → Float → Float
  pub abs : Float → Float
  pub trunc : Float → Float
  pub eq : Float → Float → Bool
  pub lt : Float → Float → Bool
  pub le : Float → Float → Bool

pub record FloatLaws (fl : Floats) : Type 0 where
  -- A text that begins with a digit is none of the names of an infinity or of no number, and a value out
  -- of range is reported as an error. So what ParseFloat gives for it without an error is finite, and
  -- x - x is 0 for a finite x, which is below 0.05.
  pub parse_near :
      (c : ℕ) (s : Text) (x : fl.Float)
      → is_digit c ≡ true
      → fl.parse (c ∷ s) ≡ some x
      → fl.lt (fl.abs (fl.sub x x)) (fl.literal 5 2) ≡ true
