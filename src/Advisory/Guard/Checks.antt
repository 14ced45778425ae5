-- ===== src/Advisory/Guard/Checks.antt =====
-- What the guard lets through.
use audiax_backend.Common.{
  ◌≡◌, ◌≢◌, refl, sym, ◌∙◌, ◌↔◌, ◌⊎◌, inl, inr, Bool, true, false, Option, none, some, List, [],
  arith, all, All, Bool-cases,
}
use audiax_backend.Common.Text.{Text, is_empty, is_blank, is_space, Unicode, to_lower}
use audiax_backend.Common.Text.Search.{Contains}
use audiax_backend.Common.Text.Trim.{is_empty_iff, is_blank-eq-all}
use audiax_backend.Constants.{advisory_forbidden_diagnosis_phrases}
use audiax_backend.Errors.{Error}
use audiax_backend.Exec.{Result, ok, err}
use audiax_backend.Floats.{Floats}
use audiax_backend.Advisory.{Cell, Reply}
use audiax_backend.Advisory.Numbers.{extract_numbers, first_disallowed_number}
use audiax_backend.Advisory.Numbers.Whitelist.{IsAllowed, first_disallowed_number_iff}
use audiax_backend.Advisory.Guard.{
  LlmOutput, shutdown_word, inspect_word, shutdown_precedes_inspection,
  first_forbidden_diagnosis_phrase, combined, reply_of, whitelist, violation, judge, check_decoded,
  guard,
}
use audiax_backend.Advisory.Guard.Order.{
  ComesFirst, shutdown_precedes_inspection_iff, first_forbidden_iff,
}

module _ (u : Unicode) (fl : Floats) (cell : Cell) (allowed_numbers : List fl.Float) where
  -- The four checks, each by its meaning.
  pub record IsAcceptable (out : LlmOutput) : Type 0 where
    -- neither text is white space alone
    pub answered : all is_space out.jawaban ≡ false
    pub next_given : all is_space out.langkah_berikutnya ≡ false
    -- every number is whole from 1 to 9, or near one of the caller or of the cell
    pub numbers :
        All (IsAllowed fl (whitelist u fl cell allowed_numbers)) (extract_numbers fl (combined out))
    pub no_diagnosis :
        All (λ p. ¬ Contains (to_lower u (combined out)) p) advisory_forbidden_diagnosis_phrases
    pub safe :
        cell.safety_gate ≢ [] → ComesFirst (to_lower u (combined out)) shutdown_word inspect_word

  -- The tests of the code, all passed.
  record IsPassed (out : LlmOutput) : Type 0 where
    answer_given : is_blank out.jawaban ≡ false
    step_given : is_blank out.langkah_berikutnya ≡ false
    no_number :
        first_disallowed_number fl (combined out) (whitelist u fl cell allowed_numbers) ≡ none
    no_phrase : first_forbidden_diagnosis_phrase u (combined out) ≡ none
    ordered :
        (is_empty cell.safety_gate ≡ true) ⊎ (shutdown_precedes_inspection u (combined out) ≡ true)

  IsPassed-of_none :
      (out : LlmOutput) → violation u fl cell allowed_numbers out ≡ none → IsPassed out
  unfolding violation
  IsPassed-of_none out h = ground arith

  none_of_IsPassed :
      (out : LlmOutput) → IsPassed out → violation u fl cell allowed_numbers out ≡ none
  unfolding violation
  none_of_IsPassed out p = ground arith

  IsAcceptable-of_IsPassed : (out : LlmOutput) → IsPassed out → IsAcceptable out
  IsAcceptable-of_IsPassed out p = record {
    answered = sym (is_blank-eq-all out.jawaban) ∙ p.answer_given;
    next_given = sym (is_blank-eq-all out.langkah_berikutnya) ∙ p.step_given;
    numbers = (first_disallowed_number_iff fl (combined out) _).0 p.no_number;
    no_diagnosis = (first_forbidden_iff u (combined out)).0 p.no_phrase;
    safe = λ gated. elim p.ordered [
      | inl none_given ↦ absurd (gated ((is_empty_iff cell.safety_gate).0 none_given))
      | inr stopped ↦ (shutdown_precedes_inspection_iff u (combined out)).0 stopped
    ];
  }

  IsPassed-of_IsAcceptable : (out : LlmOutput) → IsAcceptable out → IsPassed out
  IsPassed-of_IsAcceptable out a = record {
    answer_given = is_blank-eq-all out.jawaban ∙ a.answered;
    step_given = is_blank-eq-all out.langkah_berikutnya ∙ a.next_given;
    no_number = (first_disallowed_number_iff fl (combined out) _).1 a.numbers;
    no_phrase = (first_forbidden_iff u (combined out)).1 a.no_diagnosis;
    ordered = elim (Bool-cases (is_empty cell.safety_gate)) [
      | inl none_given ↦ inl none_given
      | inr gated ↦ inr (
          (shutdown_precedes_inspection_iff u (combined out)).1
            (a.safe (λ e. cc ((is_empty_iff cell.safety_gate).1 e))))
    ];
  }

  judged :
      (out : LlmOutput) (v : Option Error) (r : Reply)
      → judge u fl cell out v ≡ ok r
      → (v ≡ none) × (r ≡ reply_of cell out)
  judged out none r h = ground arith
  judged out (some e) r h = cc

  -- What stands in an accepted reply.
  pub record IsVetted (decoded : Result LlmOutput) (r : Reply) : Type 0 where
    pub out : LlmOutput
    pub parsed : decoded ≡ ok out
    pub acceptable : IsAcceptable out
    pub replied : r ≡ reply_of cell out

  vetted :
      (d : Result LlmOutput) (r : Reply)
      → check_decoded u fl cell allowed_numbers d ≡ ok r
      → IsVetted d r
  vetted (err e) r h = cc
  vetted (ok out) r h =
      let (passed, same) = judged out (violation u fl cell allowed_numbers out) r h in
      record {
        out = out;
        parsed = refl;
        acceptable = IsAcceptable-of_IsPassed out (IsPassed-of_none out passed);
        replied = same;
      }

  unvetted :
      (d : Result LlmOutput) (r : Reply)
      → IsVetted d r
      → check_decoded u fl cell allowed_numbers d ≡ ok r
  unvetted d r v =
      let passed = none_of_IsPassed v.out (IsPassed-of_IsAcceptable v.out v.acceptable) in
      rw (v.parsed, passed, v.replied) refl

  -- The guard accepts a completion with a reply exactly when the completion parses, neither of its
  -- texts is blank, every number in them is whitelisted, no forbidden phrase stands in them, a gated
  -- cell has them say "matikan" before every "periksa", and the reply carries these texts with the
  -- technician flag of the cell and no escalation.
  pub guard_accepts_iff :
      (decode : Text → Result LlmOutput) (raw : Text) (r : Reply)
      → (guard u fl decode raw cell allowed_numbers ≡ ok r) ↔ IsVetted (decode raw) r
  unfolding guard
  guard_accepts_iff decode raw r = (vetted (decode raw) r, unvetted (decode raw) r)

  -- The model's own claims about a technician and an escalation have no effect: two completions that
  -- parse to the same two texts are judged alike, with the same reply or the same error.
  pub guard_ignores_claims :
      (decode : Text → Result LlmOutput) (raw raw' : Text) (out : LlmOutput)
      (technician danger : Bool)
      → decode raw ≡ ok out
      → decode raw' ≡ ok (record out { perlu_teknisi = technician; eskalasi = danger })
      → guard u fl decode raw cell allowed_numbers ≡ guard u fl decode raw' cell allowed_numbers
  unfolding guard violation
  guard_ignores_claims decode raw raw' out technician danger e e' = rw (e, e') refl
