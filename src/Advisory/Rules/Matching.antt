-- ===== src/Advisory/Rules/Matching.antt =====
-- What it means that a key matches a combination.
use audiax_backend.Common.{◌≡◌, refl, ◌↔◌, ◌⊎◌, true, List, [], ◌∷◌, arith, length}
use audiax_backend.Common.Text.{Text, text, split}
use audiax_backend.Common.Text.Search.{eq_iff}
use audiax_backend.Advisory.Rules.{Combo, dimensions, parts_match, cell_matches}

-- A part of a key fits a value if it is the wildcard or the value.
abbrev pub Fits : Text → Text → Type 0
Fits part value = (part ≡ text "*") ⊎ (part ≡ value)

abbrev pub FitAll : List Text → List Text → Type 0
FitAll [] [] = Unit
FitAll (p ∷ ps) (v ∷ vs) = Fits p v × FitAll ps vs
FitAll [] (_ ∷ _) = ⊥
FitAll (_ ∷ _) [] = ⊥

-- A key matches if it has as many parts as there are dimensions, and each part fits.
abbrev pub Matches : Text → Combo → Type 0
Matches key q = FitAll (split key b'|') (dimensions q)

parts_match_sound :
    (ps vs : List Text) → length ps ≡ length vs → parts_match ps vs ≡ true → FitAll ps vs
unfolding parts_match
parts_match_sound [] [] e h = tt
parts_match_sound (p ∷ ps) (v ∷ vs) e h = (
  ground (arith, eq_iff p (text "*"), eq_iff p v),
  parts_match_sound ps vs (omega arith) (ground arith),
)
parts_match_sound [] (v ∷ vs) e h = absurd (omega arith)
parts_match_sound (p ∷ ps) [] e h = absurd (omega arith)

parts_match_complete : (ps vs : List Text) → FitAll ps vs → parts_match ps vs ≡ true
unfolding parts_match
parts_match_complete [] vs h = refl
parts_match_complete (p ∷ ps) (v ∷ vs) (fit, rest) =
    ground (arith, eq_iff p (text "*"), eq_iff p v, parts_match_complete ps vs rest)
parts_match_complete (p ∷ ps) [] h = absurd h

length-FitAll : (ps vs : List Text) → FitAll ps vs → length ps ≡ length vs
length-FitAll [] [] h = refl
length-FitAll (p ∷ ps) (v ∷ vs) (_, rest) = omega (arith, length-FitAll ps vs rest)
length-FitAll [] (v ∷ vs) h = absurd h
length-FitAll (p ∷ ps) [] h = absurd h

cell_matches_sound : (key : Text) (q : Combo) → cell_matches key q ≡ true → Matches key q
unfolding cell_matches
cell_matches_sound key q h =
    parts_match_sound (split key b'|') (dimensions q) (ground arith) (ground arith)

cell_matches_complete : (key : Text) (q : Combo) → Matches key q → cell_matches key q ≡ true
unfolding cell_matches
cell_matches_complete key q h = ground (
  arith,
  length-FitAll (split key b'|') (dimensions q) h,
  parts_match_complete (split key b'|') (dimensions q) h,
)

-- `cellMatches` decides `Matches`.
pub cell_matches_iff : (key : Text) (q : Combo) → (cell_matches key q ≡ true) ↔ Matches key q
cell_matches_iff key q = (cell_matches_sound key q, cell_matches_complete key q)
