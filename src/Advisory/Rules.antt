-- ===== src/Advisory/Rules.antt =====
-- internal/advisory/rules.go: the lookup in the decision table.
pub mod Matching
pub mod Best
use audiax_backend.Common.{
  ℕ, Bool, true, false, not, ◌&&◌, List, [], ◌∷◌, ◌++◌, ltb, nat_eq, if◌then◌else◌, length, select,
}
use audiax_backend.Common.Text.{Text, text, ◌==◌, split, count}
use audiax_backend.Errors.{opaque, panic}
use audiax_backend.Exec.{Result, ok, err}
use audiax_backend.Advisory.{Cell}

-- The four dimensions, in the order of the key.
pub record Combo : Type 0 where
  pub status : Text
  pub indicator : Text
  pub drive : Text
  pub recency : Text

abbrev pub dimensions : Combo → List Text
dimensions q = q.status ∷ q.indicator ∷ q.drive ∷ q.recency ∷ []

-- the loop of `cellMatches`; an index out of range would panic, and does not occur
unfoldable pub parts_match : List Text → List Text → Bool
parts_match [] combo = true
parts_match (part ∷ parts) [] = false
parts_match (part ∷ parts) (c ∷ combo) =
    if not (part == text "*") && not (part == c) then false else parts_match parts combo

unfoldable pub cell_matches : Text → Combo → Bool
cell_matches key q =
    let parts = split key b'|' in
    if nat_eq (length parts) 4 then parts_match parts (dimensions q) else false

unfoldable pub wildcard_count : Text → ℕ
wildcard_count key = count key b'*'

abbrev pub matching_cells : List Cell → Combo → List Cell
matching_cells cells q = select (λ c. cell_matches c.key q) cells

-- the first loop of `leastWildcards`
unfoldable pub least : ℕ → List Cell → ℕ
least best [] = best
least best (c ∷ cs) =
    least (if ltb (wildcard_count c.key) best then wildcard_count c.key else best) cs

-- `cells[0]` of no cell panics
unfoldable pub least_wildcards : List Cell → Result (List Cell)
least_wildcards [] = err (panic (text "index out of range"))
least_wildcards (c ∷ cs) =
    let best = least (wildcard_count c.key) cs in
    ok (select (λ x. nat_eq (wildcard_count x.key) best) (c ∷ cs))

-- `best[0]`
unfoldable pub first_cell : Result (List Cell) → Result Cell
first_cell (err e) = err e
first_cell (ok []) = err (panic (text "index out of range"))
first_cell (ok (c ∷ cs)) = ok c

abbrev pub no_cell_message : Combo → Text
no_cell_message q =
    text "advisory: no decision_table.json cell matches "
    ++ (q.status
        ++ (text "|" ++ (q.indicator ++ (text "|" ++ (q.drive ++ (text "|" ++ q.recency))))))

-- `Lookup`, on the cells of a table
unfoldable pub lookup : List Cell → Combo → Result Cell
unfolding first_cell
lookup cells q =
    let candidates = matching_cells cells q in
    elim candidates [
      | [] ↦ err (opaque (no_cell_message q))
      | c ∷ cs ↦ first_cell (least_wildcards (c ∷ cs))
    ]
