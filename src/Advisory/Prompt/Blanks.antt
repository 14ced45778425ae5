-- ===== src/Advisory/Prompt/Blanks.antt =====
-- What collapsing the blank runs leaves.
use mathlib.Core.List.{append_assoc}
use audiax_backend.Common.{
  ◌≡◌, refl, sym, ap, ◌∙◌, ◌⊎◌, Bool, true, false, not, List, [], ◌∷◌, ◌++◌, arith, All, select,
}
use audiax_backend.Common.Text.{Text, is_blank, trim_space}
use audiax_backend.Advisory.Prompt.{collapse_from, collapse_blank_runs}

abbrev pub Filled : List Text → Type 0
Filled = All (λ l. is_blank l ≡ false)

-- No blank line stands behind a blank line; the flag says whether one stands before the list.
abbrev pub NoRun : Bool → List Text → Type 0
NoRun prev_blank [] = Unit
NoRun prev_blank (l ∷ ls) = ((prev_blank ≡ false) ⊎ (is_blank l ≡ false)) × NoRun (is_blank l) ls

collapse_from-NoRun :
    (prev_blank : Bool) (ls : List Text) → NoRun prev_blank (collapse_from prev_blank ls)
unfolding collapse_from
collapse_from-NoRun prev_blank [] = tt
collapse_from-NoRun prev_blank (l ∷ ls) =
    ground (arith, collapse_from-NoRun (is_blank l) ls, collapse_from-NoRun prev_blank ls)

collapse_from_of_NoRun :
    (prev_blank : Bool) (ls : List Text) → NoRun prev_blank ls → collapse_from prev_blank ls ≡ ls
unfolding collapse_from
collapse_from_of_NoRun prev_blank [] h = refl
collapse_from_of_NoRun prev_blank (l ∷ ls) (here, h) =
    ground (arith, collapse_from_of_NoRun (is_blank l) ls h)

collapse_from-select :
    (prev_blank : Bool) (ls : List Text)
    → select (λ l. not (is_blank l)) (collapse_from prev_blank ls)
      ≡ select (λ l. not (is_blank l)) ls
unfolding collapse_from
collapse_from-select prev_blank [] = refl
collapse_from-select prev_blank (l ∷ ls) =
    ground (arith, collapse_from-select (is_blank l) ls, collapse_from-select prev_blank ls)

-- What collapsing leaves: no blank line behind a blank line, the lines that are not blank as they
-- were, and nothing to do for a second pass.
pub collapse_blank_runs_lem :
    (ls : List Text)
    → NoRun false (collapse_blank_runs ls)
      × (select (λ l. not (is_blank l)) (collapse_blank_runs ls)
          ≡ select (λ l. not (is_blank l)) ls)
      × (collapse_blank_runs (collapse_blank_runs ls) ≡ collapse_blank_runs ls)
unfolding collapse_blank_runs
collapse_blank_runs_lem ls = (
  collapse_from-NoRun false ls,
  collapse_from-select false ls,
  collapse_from_of_NoRun false (collapse_from false ls) (collapse_from-NoRun false ls),
)

-- Lines that are not blank are kept, and the flag behind them is down.
pub collapse_from-Filled :
    (l : Text) (xs ys : List Text) (prev_blank : Bool)
    → Filled (l ∷ xs)
    → collapse_from prev_blank ((l ∷ xs) ++ ys) ≡ (l ∷ xs) ++ collapse_from false ys
unfolding collapse_from
collapse_from-Filled l [] ys prev_blank (h, _) = ground arith
collapse_from-Filled l (m ∷ xs) ys prev_blank (h, hs) =
    ground (arith, collapse_from-Filled m xs ys false hs)

-- A section with a blank line behind it, or nothing.
abbrev pub with_gap : List Text → List Text
with_gap [] = []
with_gap (l ∷ ls) = (l ∷ ls) ++ [] ∷ []

collapse_from-blank : (ys : List Text) → collapse_from false ([] ∷ ys) ≡ [] ∷ collapse_from true ys
unfolding collapse_from trim_space
collapse_from-blank ys = refl

collapse_last :
    (q : Text) (prev_blank : Bool) → is_blank q ≡ false → collapse_from prev_blank (q ∷ []) ≡ q ∷ []
unfolding collapse_from
collapse_last q prev_blank h = ground arith

-- Behind a blank line, a section that may be missing and the last line.
collapse_end :
    (rs : List Text) (q : Text)
    → Filled rs
    → is_blank q ≡ false
    → collapse_from true (rs ++ ([] ∷ (q ∷ []))) ≡ with_gap rs ++ q ∷ []
collapse_end [] q h e = skip_blank ∙ collapse_last q true e
  where
    skip_blank : collapse_from true ([] ∷ (q ∷ [])) ≡ collapse_from true (q ∷ [])
    skip_blank = unfold collapse_from trim_space in refl
collapse_end (r ∷ rs) q h e =
    collapse_from-Filled r rs ([] ∷ (q ∷ [])) true h
    ∙ (ap (λ ys. (r ∷ rs) ++ ys)
          (collapse_from-blank (q ∷ []) ∙ ap (λ ys. [] ∷ ys) (collapse_last q true e))
        ∙ sym (append_assoc (r ∷ rs) ([] ∷ []) (q ∷ [])))

-- The prompt's sections: two that are there, one that may be missing, and the last line.
pub collapse_sections :
    (f : Text) (fs : List Text) (d : Text) (ds rs : List Text) (q : Text)
    → Filled (f ∷ fs)
    → Filled (d ∷ ds)
    → Filled rs
    → is_blank q ≡ false
    → collapse_from false ((f ∷ fs) ++ ([] ∷ ((d ∷ ds) ++ ([] ∷ (rs ++ ([] ∷ (q ∷ [])))))))
      ≡ (f ∷ fs) ++ ([] ∷ ((d ∷ ds) ++ ([] ∷ (with_gap rs ++ q ∷ []))))
collapse_sections f fs d ds rs q hf hd hr hq =
    collapse_from-Filled f fs _ false hf
    ∙ ap (λ ys. (f ∷ fs) ++ ys)
        (collapse_from-blank _
          ∙ ap (λ ys. [] ∷ ys)
              (collapse_from-Filled d ds _ true hd
                ∙ ap (λ ys. (d ∷ ds) ++ ys)
                    (collapse_from-blank _ ∙ ap (λ ys. [] ∷ ys) (collapse_end rs q hr hq))))
