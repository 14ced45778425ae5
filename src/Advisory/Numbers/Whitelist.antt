-- ===== src/Advisory/Numbers/Whitelist.antt =====
-- Which numbers pass the whitelist.
use audiax_backend.Common.{
  ◌≡◌, refl, ◌↔◌, ◌⊎◌, inl, inr, Bool-cases, Option-cases, none, some, List, [], ◌∷◌, arith, In,
  All, any, true, In-append_left, In-append_right,
}
use audiax_backend.Common.Text.{Text}
use audiax_backend.Advisory.Numbers.Begin.{BeginsWithDigit, digit-ne-comma, find_numbers-begin}
use audiax_backend.Floats.{Floats, FloatLaws}
use audiax_backend.Advisory.{Cell}
use audiax_backend.Advisory.Numbers.{
  cell_numbers, checklist_numbers, is_ordinal, is_near, number_allowed, first_disallowed,
  first_disallowed_number, extract_numbers, normalized, parse_all, find_numbers, outside,
}

module _ (fl : Floats) where
  -- A whole number from 1 to 9, or a number of the list up to the tolerance.
  abbrev pub IsAllowed : List fl.Float → fl.Float → Type 0
  IsAllowed allowed n =
      (is_ordinal fl n ≡ true) ⊎ ((a : fl.Float) × In a allowed × (is_near fl n a ≡ true))

  any_sound :
      (n : fl.Float) (l : List fl.Float)
      → any (λ a. is_near fl n a) l ≡ true
      → (a : fl.Float) × In a l × (is_near fl n a ≡ true)
  any_sound n [] h = cc
  any_sound n (a ∷ l) h = elim (Bool-cases (is_near fl n a)) [
    | inl near ↦ (a, inl refl, near)
    | inr far ↦ let (b, i, e) = any_sound n l (ground arith) in (b, inr i, e)
  ]

  any_complete :
      (n : fl.Float) (l : List fl.Float) (a : fl.Float)
      → In a l
      → is_near fl n a ≡ true
      → any (λ b. is_near fl n b) l ≡ true
  any_complete n [] a i h = elim i [ ]
  any_complete n (b ∷ l) a (inl e) h = rw (← e, h) refl
  any_complete n (b ∷ l) a (inr i) h = ground (arith, any_complete n l a i h)

  number_allowed_sound :
      (n : fl.Float) (l : List fl.Float) → number_allowed fl n l ≡ true → IsAllowed l n
  unfolding number_allowed
  number_allowed_sound n l h = elim (Bool-cases (is_ordinal fl n)) [
    | inl ordinal ↦ inl ordinal
    | inr other ↦ inr (any_sound n l (rw other at h))
  ]

  number_allowed_complete :
      (n : fl.Float) (l : List fl.Float) → IsAllowed l n → number_allowed fl n l ≡ true
  unfolding number_allowed
  number_allowed_complete n l (inl h) = rw h refl
  number_allowed_complete n l (inr (a, i, h)) = ground (arith, any_complete n l a i h)

  first_disallowed_sound :
      (ns l : List fl.Float) → first_disallowed fl ns l ≡ none → All (IsAllowed l) ns
  unfolding first_disallowed
  first_disallowed_sound [] l h = tt
  first_disallowed_sound (n ∷ ns) l h = elim (Bool-cases (number_allowed fl n l)) [
    | inl fine ↦ (number_allowed_sound n l fine, first_disallowed_sound ns l (rw fine at h))
    | inr bad ↦ ground arith
  ]

  first_disallowed_complete :
      (ns l : List fl.Float) → All (IsAllowed l) ns → first_disallowed fl ns l ≡ none
  unfolding first_disallowed
  first_disallowed_complete [] l h = refl
  first_disallowed_complete (n ∷ ns) l (h, hs) =
      rw (number_allowed_complete n l h) (first_disallowed_complete ns l hs)

  -- The check finds nothing in a text exactly when every number of the text passes.
  pub first_disallowed_number_iff :
      (s : Text) (l : List fl.Float)
      → (first_disallowed_number fl s l ≡ none) ↔ All (IsAllowed l) (extract_numbers fl s)
  unfolding first_disallowed_number
  first_disallowed_number_iff s l = (
    first_disallowed_sound (extract_numbers fl s) l,
    first_disallowed_complete (extract_numbers fl s) l,
  )

  checklist_numbers-In :
      (items : List Text) (item : Text) (n : fl.Float)
      → In item items
      → In n (extract_numbers fl item)
      → In n (checklist_numbers fl items)
  unfolding checklist_numbers
  checklist_numbers-In [] item n i k = elim i [ ]
  checklist_numbers-In (x ∷ xs) item n (inl e) k =
      In-append_left n (extract_numbers fl x) _ (rw e at k)
  checklist_numbers-In (x ∷ xs) item n (inr i) k =
      In-append_right n (extract_numbers fl x) _ (checklist_numbers-In xs item n i k)

  -- The texts of a cell that an answer may quote.
  abbrev pub quotable : Cell → List Text
  quotable cell = cell.safety_gate ∷ cell.escalate_if ∷ cell.urgency ∷ cell.checklist

  cell_numbers-In :
      (cell : Cell) (s : Text) (n : fl.Float)
      → In s (quotable cell)
      → In n (extract_numbers fl s)
      → In n (cell_numbers fl cell)
  unfolding cell_numbers
  cell_numbers-In cell s n (inl e) k =
      inr (In-append_left n (extract_numbers fl cell.safety_gate) _ (rw e at k))
  cell_numbers-In cell s n (inr (inl e)) k = inr (
      In-append_right n (extract_numbers fl cell.safety_gate) _
        (In-append_left n (extract_numbers fl cell.escalate_if) _ (rw e at k)))
  cell_numbers-In cell s n (inr (inr (inl e))) k = inr (
      In-append_right n (extract_numbers fl cell.safety_gate) _ (
        In-append_right n (extract_numbers fl cell.escalate_if) _
          (In-append_left n (extract_numbers fl cell.urgency) _ (rw e at k))))
  cell_numbers-In cell s n (inr (inr (inr i))) k = inr (
      In-append_right n (extract_numbers fl cell.safety_gate) _ (
        In-append_right n (extract_numbers fl cell.escalate_if) _ (
          In-append_right n (extract_numbers fl cell.urgency) _
            (checklist_numbers-In cell.checklist s n i k))))

  near_first_or_later :
      (laws : FloatLaws fl) (m : Text) (v n : fl.Float) (ms : List Text)
      → BeginsWithDigit m
      → fl.parse (normalized m) ≡ some v
      → (In n (parse_all fl ms) → is_near fl n n ≡ true)
      → (n ≡ v) ⊎ In n (parse_all fl ms)
      → is_near fl n n ≡ true
  unfolding is_near normalized
  near_first_or_later laws [] v n ms begins good later i = absurd begins
  near_first_or_later laws (c ∷ m) v n ms begins good later (inl e) =
      rw e (laws.parse_near c (normalized m) v begins (rw (digit-ne-comma c begins) at good))
  near_first_or_later laws m v n ms begins good later (inr i) = later i

  parse_all-near :
      (laws : FloatLaws fl) (ms : List Text) (n : fl.Float)
      → All BeginsWithDigit ms
      → In n (parse_all fl ms)
      → is_near fl n n ≡ true
  unfolding parse_all
  parse_all-near laws [] n begin i = elim i [ ]
  parse_all-near laws (m ∷ ms) n (begins, begin) i = elim (Option-cases (fl.parse (normalized m))) [
    | inl bad ↦ parse_all-near laws ms n begin (rw (bad, parse_all) at i)
    | inr (v, good) ↦
        near_first_or_later laws m v n ms begins good (parse_all-near laws ms n begin)
          (rw (good, parse_all) at i)
  ]

  All_of_In :
      (P : fl.Float → Type 0) (ns : List fl.Float) → ((n : fl.Float) → In n ns → P n) → All P ns
  All_of_In P [] h = tt
  All_of_In P (n ∷ ns) h = (h n (inl refl), All_of_In P ns (λ k i. h k (inr i)))

  -- A completion may quote the cell: every number of the safety gate, of the escalation rule, of the
  -- urgency and of each step of the checklist passes the whitelist of the cell's numbers, if what
  -- ParseFloat gives for a text that begins with a digit is near itself.
  pub quoted_numbers_allowed :
      (laws : FloatLaws fl) (cell : Cell) (s : Text)
      → In s (quotable cell)
      → All (IsAllowed (cell_numbers fl cell)) (extract_numbers fl s)
  unfolding extract_numbers
  quoted_numbers_allowed laws cell s i =
      All_of_In (IsAllowed (cell_numbers fl cell)) (extract_numbers fl s) λ n k. inr (
        n,
        cell_numbers-In cell s n i k,
        parse_all-near laws (find_numbers outside s) n (find_numbers-begin outside s tt) k,
      )
