-- ===== src/Advisory/Rules/Best.antt =====
-- The cell that `Lookup` answers with.
use audiax_backend.Common.{
  ℕ, ◌≤◌, ◌≡◌, refl, ◌↔◌, ◌⊎◌, inl, inr, Bool, true, List, [], ◌∷◌, arith, ltb, nat_eq, In, select,
  select-In, cons_of_In, nat_eq_iff, sym, ap, Bool-cases,
}
use audiax_backend.Errors.{opaque}
use audiax_backend.Exec.{Result, ok, err}
use audiax_backend.Advisory.{Cell}
use audiax_backend.Advisory.Rules.{
  Combo, cell_matches, wildcard_count, matching_cells, least, least_wildcards, first_cell, lookup,
  no_cell_message,
}
use audiax_backend.Advisory.Rules.Matching.{Matches, cell_matches_iff}

-- The loop finds a lower bound,
least-le : (best : ℕ) (cs : List Cell) → least best cs ≤ best
unfolding least
least-le best [] = omega arith
least-le best (c ∷ cs) = ground (arith, least-le (wildcard_count c.key) cs, least-le best cs)

least-le_all :
    (best : ℕ) (cs : List Cell) (x : Cell) → In x cs → least best cs ≤ wildcard_count x.key
unfolding least
least-le_all best [] x i = elim i [ ]
least-le_all best (c ∷ cs) x (inl e) =
    rw e (ground (arith, least-le (wildcard_count c.key) cs, least-le best cs))
least-le_all best (c ∷ cs) x (inr i) =
    ground (arith, least-le_all (wildcard_count c.key) cs x i, least-le_all best cs x i)

-- which is the start or the count of a cell.
least_attained :
    (best : ℕ) (cs : List Cell)
    → (least best cs ≡ best) ⊎ ((x : Cell) × In x cs × (wildcard_count x.key ≡ least best cs))
unfolding least
least_attained best [] = inl refl
least_attained best (c ∷ cs) = elim (Bool-cases (ltb (wildcard_count c.key) best)) [
  | inl lower ↦ rw lower (elim (least_attained (wildcard_count c.key) cs) [
    | inl e ↦ inr (c, inl refl, ground arith)
    | inr (x, i, e) ↦ inr (x, inr i, ground arith)
  ])
  | inr other ↦ rw other (elim (least_attained best cs) [
    | inl e ↦ inl e
    | inr (x, i, e) ↦ inr (x, inr i, ground arith)
  ])
]

-- `x` is in the list, and no cell of the list has fewer wildcards.
pub record IsBest (cells : List Cell) (x : Cell) : Type 0 where
  pub listed : In x cells
  pub least_wild : (y : Cell) → In y cells → wildcard_count x.key ≤ wildcard_count y.key

attained_by :
    (c : Cell) (cs : List Cell)
    → (x : Cell) × In x (c ∷ cs) × (wildcard_count x.key ≡ least (wildcard_count c.key) cs)
attained_by c cs = elim (least_attained (wildcard_count c.key) cs) [
  | inl e ↦ (c, inl refl, sym e)
  | inr (x, i, e) ↦ (x, inr i, e)
]

least-le_every :
    (c : Cell) (cs : List Cell) (y : Cell)
    → In y (c ∷ cs)
    → least (wildcard_count c.key) cs ≤ wildcard_count y.key
least-le_every c cs y (inl e) = rw e (least-le (wildcard_count c.key) cs)
least-le_every c cs y (inr i) = least-le_all (wildcard_count c.key) cs y i

-- `leastWildcards` of some cells is some cells, the first of them best.
least_wildcards_lem :
    (c : Cell) (cs : List Cell)
    → (x : Cell) × (first_cell (least_wildcards (c ∷ cs)) ≡ ok x) × IsBest (c ∷ cs) x
unfolding least_wildcards first_cell
least_wildcards_lem c cs =
    let best : ℕ = least (wildcard_count c.key) cs in
    let test : Cell → Bool = λ x. nat_eq (wildcard_count x.key) best in
    let (x₀, i₀, e₀) = attained_by c cs in
    let (x, xs, kept) =
      cons_of_In (select test (c ∷ cs)) x₀
        ((select-In test (c ∷ cs) x₀).1 (i₀, (nat_eq_iff _ _).1 e₀)) in
    let (listed, equal) = (select-In test (c ∷ cs) x).0 (rw kept (inl refl)) in
    (
      x,
      ap (λ l. first_cell (ok l)) kept,
      record {
        listed = listed;
        least_wild = λ y i. rw ((nat_eq_iff _ _).0 equal) (least-le_every c cs y i);
      },
    )

-- A cell of the table that matches, with the fewest wildcards of all that match.
pub record IsAnswer (cells : List Cell) (q : Combo) (x : Cell) : Type 0 where
  pub listed : In x cells
  pub matches : Matches x.key q
  pub least_wild :
      (y : Cell) → In y cells → Matches y.key q → wildcard_count x.key ≤ wildcard_count y.key

candidate_iff :
    (cells : List Cell) (q : Combo) (x : Cell)
    → In x (matching_cells cells q) ↔ (In x cells × (cell_matches x.key q ≡ true))
candidate_iff cells q x = select-In (λ c. cell_matches c.key q) cells x

IsAnswer-of_IsBest :
    (cells : List Cell) (q : Combo) (x : Cell)
    → IsBest (matching_cells cells q) x
    → IsAnswer cells q x
IsAnswer-of_IsBest cells q x b =
    let (listed, matched) = (candidate_iff cells q x).0 b.listed in
    record {
      listed = listed;
      matches = (cell_matches_iff x.key q).0 matched;
      least_wild =
          λ y i m. b.least_wild y ((candidate_iff cells q y).1 (i, (cell_matches_iff y.key q).1 m));
    }

-- What `Lookup` answers: a best matching cell, or the error that names the combination.
abbrev pub Answers : List Cell → Combo → Result Cell → Type 0
Answers cells q (ok c) = IsAnswer cells q c
Answers cells q (err e) =
    (e ≡ opaque (no_cell_message q)) × ((y : Cell) → In y cells → ¬ Matches y.key q)

Answers-of :
    (cells : List Cell) (q : Combo) (candidates : List Cell)
    → matching_cells cells q ≡ candidates
    → Answers cells q (elim candidates [
      | [] ↦ err (opaque (no_cell_message q))
      | c ∷ cs ↦ first_cell (least_wildcards (c ∷ cs))
    ])
Answers-of cells q [] e =
    (refl, λ y i m. rw e at ((candidate_iff cells q y).1 (i, (cell_matches_iff y.key q).1 m)))
Answers-of cells q (c ∷ cs) e =
    let (x, found, best) = least_wildcards_lem c cs in
    rw found (IsAnswer-of_IsBest cells q x (rw e best))

-- `Lookup` on any table and combination: either it answers with a matching cell of the table that
-- has the fewest wildcards of all matching cells, or no cell matches and it returns its error
-- message. So it never indexes an empty list.
pub lookup-Answers : (cells : List Cell) (q : Combo) → Answers cells q (lookup cells q)
unfolding lookup
lookup-Answers cells q = Answers-of cells q (matching_cells cells q) refl

-- A table with a matching cell is answered.
pub lookup_found :
    (cells : List Cell) (q : Combo) (y : Cell)
    → In y cells
    → Matches y.key q
    → (c : Cell) × (lookup cells q ≡ ok c)
lookup_found cells q y i m = found (lookup cells q) (lookup-Answers cells q)
  where
    found : (r : Result Cell) → Answers cells q r → (c : Cell) × (r ≡ ok c)
    found (ok c) a = (c, refl)
    found (err e) a = absurd (a.1 y i m)
