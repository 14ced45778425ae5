-- ===== src/Advisory/Static/Sections.antt =====
-- The static answer as its sections joined by blanks.
use mathlib.Core.List.{append_assoc, append-nil}
use audiax_backend.Common.{
  ℕ, ◌+◌, ◌≡◌, ◌≢◌, refl, sym, ap, ◌∙◌, false, not, List, [], ◌∷◌, ◌++◌, All, if◌then◌else◌,
}
use audiax_backend.Common.Text.{Text, text, is_empty, join}
use audiax_backend.Common.Text.Decimal.{itoa}
use audiax_backend.Advisory.{Cell}
use audiax_backend.Advisory.Static.{numbered_step, write_piece, write_steps, static_answer}

abbrev blank : Text
blank = text " "

-- A section that is left out when empty.
abbrev pub if_given : Text → List Text
if_given [] = []
if_given (c ∷ s) = (c ∷ s) ∷ []

-- The steps with their numbers, from `i + 1` on.
abbrev pub numbered : ℕ → List Text → List Text
numbered i [] = []
numbered i (step ∷ steps) = numbered_step i step ∷ numbered (i + 1) steps

-- The safety gate, the numbered steps and the escalation rule, in this order.
abbrev pub sections : Cell → List Text
sections cell =
    if_given cell.safety_gate ++ (numbered 0 cell.checklist ++ if_given cell.escalate_if)

abbrev Filled : List Text → Type 0
Filled = All (λ s. is_empty s ≡ false)

is_empty-append : (s t : Text) → is_empty t ≡ false → is_empty (s ++ t) ≡ false
is_empty-append [] t h = h
is_empty-append (c ∷ s) t h = refl

join-empty : (x : Text) (xs : List Text) → Filled (x ∷ xs) → is_empty (join (x ∷ xs) blank) ≡ false
unfolding join
join-empty x [] (h, _) = h
join-empty (c ∷ x) (y ∷ ys) h = refl
join-empty [] (y ∷ ys) h = cc

join-concat :
    (x : Text) (xs : List Text) (p : Text)
    → join ((x ∷ xs) ++ p ∷ []) blank ≡ join (x ∷ xs) blank ++ (blank ++ p)
unfolding join
join-concat x [] p = refl
join-concat x (y ∷ ys) p = rw (join-concat y ys p) (simp append_assoc)

write_piece-join :
    (xs : List Text) (p : Text)
    → Filled xs
    → write_piece (join xs blank) p ≡ join (xs ++ p ∷ []) blank
unfolding write_piece join
write_piece-join [] p h = refl
write_piece-join (x ∷ xs) p h =
    rw (join-empty x xs h, join-concat x xs p) (append_assoc (join (x ∷ xs) blank) blank p)

-- A numbered step is never empty.
numbered_step-Filled : (i : ℕ) (step : Text) → is_empty (numbered_step i step) ≡ false
numbered_step-Filled i step = is_empty-append (itoa (i + 1)) (text ". " ++ step) refl

Filled-concat : (xs : List Text) (p : Text) → Filled xs → is_empty p ≡ false → Filled (xs ++ p ∷ [])
Filled-concat [] p h e = (e, tt)
Filled-concat (x ∷ xs) p (k, h) e = (k, Filled-concat xs p h e)

Filled-append : (xs ys : List Text) → Filled xs → Filled ys → Filled (xs ++ ys)
Filled-append [] ys h k = k
Filled-append (x ∷ xs) ys (e, h) k = (e, Filled-append xs ys h k)

numbered-Filled : (i : ℕ) (steps : List Text) → Filled (numbered i steps)
numbered-Filled i [] = tt
numbered-Filled i (step ∷ steps) = (numbered_step-Filled i step, numbered-Filled (i + 1) steps)

if_given-Filled : (s : Text) → Filled (if_given s)
if_given-Filled [] = tt
if_given-Filled (c ∷ s) = (refl, tt)

write_steps-join :
    (i : ℕ) (xs steps : List Text)
    → Filled xs
    → write_steps i (join xs blank) steps ≡ join (xs ++ numbered i steps) blank
unfolding write_steps
write_steps-join i xs [] h = rw append-nil refl
write_steps-join i xs (step ∷ steps) h =
    let more = Filled-concat xs (numbered_step i step) h (numbered_step-Filled i step) in
    rw (write_piece-join xs (numbered_step i step) h) (
      write_steps-join (i + 1) (xs ++ numbered_step i step ∷ []) steps more
      ∙ ap (λ l. join l blank)
          (append_assoc xs (numbered_step i step ∷ []) (numbered (i + 1) steps)))

gate-join : (s : Text) → (if not (is_empty s) then s else []) ≡ join (if_given s) blank
unfolding join
gate-join [] = refl
gate-join (c ∷ s) = refl

escalate-join :
    (xs : List Text) (e : Text)
    → Filled xs
    → (if not (is_empty e) then write_piece (join xs blank) e else join xs blank)
      ≡ join (xs ++ if_given e) blank
escalate-join xs [] h = rw append-nil refl
escalate-join xs (c ∷ e) h = write_piece-join xs (c ∷ e) h

-- The static answer is the safety gate if there is one, the steps of the checklist numbered from 1,
-- and the escalation rule if there is one, in this order, with one blank between them.
pub static_answer-eq-join : (cell : Cell) → static_answer cell ≡ join (sections cell) blank
unfolding static_answer
static_answer-eq-join cell =
    let gate : List Text = if_given cell.safety_gate in
    let steps : List Text = numbered 0 cell.checklist in
    let filled : Filled (gate ++ steps) =
      Filled-append gate steps (if_given-Filled cell.safety_gate)
        (numbered-Filled 0 cell.checklist) in
    rw
      (
        gate-join cell.safety_gate,
        write_steps-join 0 gate cell.checklist (if_given-Filled cell.safety_gate),
      )
      (escalate-join (gate ++ steps) cell.escalate_if filled
        ∙ ap (λ l. join l blank) (append_assoc gate steps (if_given cell.escalate_if)))

join-head : (x : Text) (xs : List Text) → (rest : Text) × (join (x ∷ xs) blank ≡ x ++ rest)
unfolding join
join-head x [] = ([], sym (append-nil x))
join-head x (y ∷ ys) = (_, refl)

-- A cell with a safety gate has an answer that begins with the gate.
pub static_answer_gate :
    (cell : Cell)
    → cell.safety_gate ≢ []
    → (rest : Text) × (static_answer cell ≡ cell.safety_gate ++ rest)
static_answer_gate cell h = rw static_answer-eq-join (from_gate cell.safety_gate _ h)
  where
    from_gate :
        (s : Text) (xs : List Text)
        → s ≢ []
        → (rest : Text) × (join (if_given s ++ xs) blank ≡ s ++ rest)
    from_gate [] xs k = absurd (k refl)
    from_gate (c ∷ s) xs k = join-head (c ∷ s) xs
