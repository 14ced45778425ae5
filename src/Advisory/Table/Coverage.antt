-- ===== src/Advisory/Table/Coverage.antt =====
-- What the embedded table answers for each health status.
use audiax_backend.Common.{
  ◌≡◌, refl, sym, inl, inr, Bool, true, not, ◌&&◌, ◌||◌, List, [], ◌∷◌, arith, In, all, all-In,
}
use audiax_backend.Common.Text.{Text, text, ◌==◌, split}
use audiax_backend.Common.Text.Search.{eq_iff}
use audiax_backend.Constants.{status_normal, status_warning, status_critical, status_uncalibrated}
use audiax_backend.Exec.{ok}
use audiax_backend.Advisory.{Cell}
use audiax_backend.Advisory.Rules.{Combo, lookup}
use audiax_backend.Advisory.Rules.Matching.{Matches, FitAll}
use audiax_backend.Advisory.Rules.Best.{lookup-Answers, lookup_found}
use audiax_backend.Advisory.Table.{decision_table}

abbrev pub statuses : List Text
statuses = status_normal ∷ status_warning ∷ status_critical ∷ status_uncalibrated ∷ []

abbrev pub stop_first : Text
stop_first = text "Matikan mesin dan tunggu impeler berhenti total sebelum memeriksa apa pun."

-- The cell `STATUS|*|*|*` of the table.
module _ (q : Combo) where
  HasGeneral : Text → Type 0
  HasGeneral status = (c : Cell) × In c decision_table × (q.status ≡ status → Matches c.key q)

  general_normal : HasGeneral status_normal
  unfolding HasGeneral decision_table split
  general_normal = (_, inl refl, λ e. (inr (sym e), (inl refl, (inl refl, (inl refl, tt)))))

  general_uncalibrated : HasGeneral status_uncalibrated
  unfolding HasGeneral decision_table split
  general_uncalibrated =
      (_, inr (inl refl), λ e. (inr (sym e), (inl refl, (inl refl, (inl refl, tt)))))

  general_warning : HasGeneral status_warning
  unfolding HasGeneral decision_table split
  general_warning =
      (_, inr (inr (inl refl)), λ e. (inr (sym e), (inl refl, (inl refl, (inl refl, tt)))))

  general_critical : HasGeneral status_critical
  unfolding HasGeneral decision_table split
  general_critical =
      (_, inr (inr (inr (inl refl))), λ e. (inr (sym e), (inl refl, (inl refl, (inl refl, tt)))))

  answered :
      {s : Text} → HasGeneral s → q.status ≡ s → (c : Cell) × (lookup decision_table q ≡ ok c)
  unfolding HasGeneral
  answered (c, i, m) e = lookup_found decision_table q c i (m e)

-- The embedded table answers every combination whose status is one of the four that the AI
-- service and the inspections table allow, whatever the other three dimensions are.
pub table_covers_statuses :
    (q : Combo) → In q.status statuses → (c : Cell) × (lookup decision_table q ≡ ok c)
table_covers_statuses q (inl e) = answered q (general_normal q) e
table_covers_statuses q (inr (inl e)) = answered q (general_warning q) e
table_covers_statuses q (inr (inr (inl e))) = answered q (general_critical q) e
table_covers_statuses q (inr (inr (inr (inl e)))) = answered q (general_uncalibrated q) e
table_covers_statuses q (inr (inr (inr (inr e)))) = elim e [ ]

first_part : List Text → Text
first_part [] = []
first_part (p ∷ ps) = p

-- The key is for this status, or for every status.
pub is_for : Text → Cell → Bool
is_for status c = let p = first_part (split c.key b'|') in p == text "*" || p == status

is_for_of_parts :
    (status : Text) (vs : List Text) (ps : List Text)
    → FitAll ps (status ∷ vs)
    → (first_part ps == text "*" || first_part ps == status) ≡ true
unfolding first_part
is_for_of_parts status vs [] h = absurd h
is_for_of_parts status vs (p ∷ ps) (fit, _) = ground (arith, eq_iff p (text "*"), eq_iff p status)

is_for_of_Matches : (q : Combo) (c : Cell) → Matches c.key q → is_for q.status c ≡ true
unfolding is_for
is_for_of_Matches q c m =
    is_for_of_parts q.status (q.indicator ∷ q.drive ∷ q.recency ∷ []) (split c.key b'|') m

-- A test that every cell for a status passes is passed by every answer for that status.
pub answer_passes :
    (p : Cell → Bool) (status : Text)
    → all (λ c. not (is_for status c) || p c) decision_table ≡ true
    → (q : Combo) (c : Cell) → q.status ≡ status
    → lookup decision_table q ≡ ok c
    → p c ≡ true
answer_passes p status passed q c e found =
    let a = rw found at (lookup-Answers decision_table q) in
    let here : (not (is_for status c) || p c) ≡ true =
      all-In (λ x. not (is_for status x) || p x) decision_table c passed a.listed in
    let fits : is_for status c ≡ true = rw (← e) (is_for_of_Matches q c a.matches) in ground arith

has_stop : Cell → Bool
has_stop c = c.safety_gate == stop_first

warning_checked : all (λ c. not (is_for status_warning c) || has_stop c) decision_table ≡ true
unfolding is_for first_part has_stop decision_table split ◌==◌
warning_checked = refl

critical_checked :
    all (λ c. not (is_for status_critical c) || (c.needs_technician && has_stop c)) decision_table
    ≡ true
unfolding is_for first_part has_stop decision_table split ◌==◌
critical_checked = refl

-- In the embedded table an answer for WARNING has the safety gate that says to stop the machine.
pub warning_answer :
    (q : Combo) (c : Cell)
    → q.status ≡ status_warning
    → lookup decision_table q ≡ ok c
    → c.safety_gate ≡ stop_first
unfolding has_stop
warning_answer q c e found =
    (eq_iff _ _).0 (answer_passes has_stop status_warning warning_checked q c e found)

-- In the embedded table an answer for CRITICAL calls a technician, and its safety gate says to stop
-- the machine and wait before anything is examined.
pub critical_answer :
    (q : Combo) (c : Cell)
    → q.status ≡ status_critical
    → lookup decision_table q ≡ ok c
    → (c.needs_technician ≡ true) × (c.safety_gate ≡ stop_first)
unfolding has_stop
critical_answer q c e found =
    let h =
      answer_passes (λ x. x.needs_technician && has_stop x) status_critical critical_checked q c e
        found in
    (ground arith, ground (arith, eq_iff c.safety_gate stop_first))
