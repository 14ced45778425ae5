-- ===== src/Advisory/Guard/Order.antt =====
-- The heuristic that the machine is stopped before it is inspected, and the forbidden phrases.
use audiax_backend.Common.{
  ℕ, ◌≤◌, ◌<◌, ◌≡◌, refl, ◌↔◌, inl, inr, true, none, some, List, [], ◌∷◌, arith, length, All,
  Bool-cases, Option-cases,
}
use audiax_backend.Common.Text.{Text, index, contains, Unicode, to_lower}
use audiax_backend.Common.Text.Search.{Occurs, Contains, index_sound, index_complete, contains_iff}
use audiax_backend.Constants.{advisory_forbidden_diagnosis_phrases}
use audiax_backend.Advisory.Guard.{
  shutdown_word, inspect_word, precedes, shutdown_precedes_inspection, first_contained,
  first_forbidden_diagnosis_phrase,
}

-- In the text the first word stands somewhere before every place of the second.
abbrev pub ComesFirst : Text → Text → Text → Type 0
ComesFirst s p q =
    (before : Text) × Occurs s p before
    × ((other : Text) → Occurs s q other → length before < length other)

index-le :
    (s p before : Text) → Occurs s p before → (i : ℕ) × (index s p ≡ some i) × (i ≤ length before)
index-le s p before o = rw o.split_at (index_complete before p o.after)

precedes_sound : (s p q : Text) → precedes (index s p) (index s q) ≡ true → ComesFirst s p q
precedes_sound s p q h = elim (Option-cases (index s p)) [
  | inl missing ↦ ground arith
  | inr (i, found) ↦
      let (before, o, e) = index_sound s p i found in
      (before, o, λ other there. let (j, at, le) = index-le s q other there in ground arith)
]

precedes_complete : (s p q : Text) → ComesFirst s p q → precedes (index s p) (index s q) ≡ true
precedes_complete s p q (before, o, first) =
    let (i, found, le) = index-le s p before o in
    elim (Option-cases (index s q)) [
      | inl missing ↦ ground arith
      | inr (j, at) ↦
          let (other, there, e) = index_sound s q j at in let lt = first other there in ground arith
    ]

-- The check passes exactly when, in lower case, a shutdown word stands before every inspection word.
pub shutdown_precedes_inspection_iff :
    (u : Unicode) (s : Text)
    → (shutdown_precedes_inspection u s ≡ true)
      ↔ ComesFirst (to_lower u s) shutdown_word inspect_word
unfolding shutdown_precedes_inspection
shutdown_precedes_inspection_iff u s = (
  precedes_sound (to_lower u s) shutdown_word inspect_word,
  precedes_complete (to_lower u s) shutdown_word inspect_word,
)

first_contained_sound :
    (s : Text) (ps : List Text) → first_contained s ps ≡ none → All (λ p. ¬ Contains s p) ps
unfolding first_contained
first_contained_sound s [] h = tt
first_contained_sound s (p ∷ ps) h = elim (Bool-cases (contains s p)) [
  | inl found ↦ ground arith
  | inr missing ↦ (λ c. cc ((contains_iff s p).1 c), first_contained_sound s ps (rw missing at h))
]

first_contained_complete :
    (s : Text) (ps : List Text) → All (λ p. ¬ Contains s p) ps → first_contained s ps ≡ none
unfolding first_contained
first_contained_complete s [] h = refl
first_contained_complete s (p ∷ ps) (h, hs) = elim (Bool-cases (contains s p)) [
  | inl found ↦ absurd (h ((contains_iff s p).0 found))
  | inr missing ↦ rw missing (first_contained_complete s ps hs)
]

-- No forbidden phrase is found exactly when none stands in the text in lower case.
pub first_forbidden_iff :
    (u : Unicode) (s : Text)
    → (first_forbidden_diagnosis_phrase u s ≡ none)
      ↔ All (λ p. ¬ Contains (to_lower u s) p) advisory_forbidden_diagnosis_phrases
unfolding first_forbidden_diagnosis_phrase
first_forbidden_iff u s = (
  first_contained_sound (to_lower u s) advisory_forbidden_diagnosis_phrases,
  first_contained_complete (to_lower u s) advisory_forbidden_diagnosis_phrases,
)
