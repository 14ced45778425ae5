-- ===== src/Advisory/Static.antt =====
-- internal/advisory/static.go: the reply that needs no language model.
pub mod Sections
use audiax_backend.Common.{ℕ, ◌+◌, false, not, List, [], ◌∷◌, ◌++◌, if◌then◌else◌}
use audiax_backend.Common.Text.{Text, text, is_empty}
use audiax_backend.Common.Text.Decimal.{itoa}
use audiax_backend.Advisory.{Cell, Reply}

-- `fmt.Fprintf(&b, "%d. %s", i+1, step)`
abbrev pub numbered_step : ℕ → Text → Text
numbered_step i step = itoa (i + 1) ++ (text ". " ++ step)

-- `if b.Len() > 0 { b.WriteString(" ") }` and then the piece
unfoldable pub write_piece : Text → Text → Text
write_piece b piece = (if not (is_empty b) then b ++ text " " else b) ++ piece

-- the loop over the checklist
unfoldable pub write_steps : ℕ → Text → List Text → Text
write_steps i b [] = b
write_steps i b (step ∷ steps) = write_steps (i + 1) (write_piece b (numbered_step i step)) steps

unfoldable pub static_answer : Cell → Text
static_answer cell =
    let gated = if not (is_empty cell.safety_gate) then cell.safety_gate else [] in
    let stepped = write_steps 0 gated cell.checklist in
    if not (is_empty cell.escalate_if) then write_piece stepped cell.escalate_if else stepped

abbrev without_steps : Cell → Text
without_steps cell = if not (is_empty cell.safety_gate) then cell.safety_gate else cell.escalate_if

unfoldable pub static_next_step : Cell → Text
static_next_step cell = elim cell.checklist [ [] ↦ without_steps cell | step ∷ _ ↦ step ]

unfoldable pub static_reply : Cell → Reply
static_reply cell = record {
  answer = static_answer cell;
  next_step = static_next_step cell;
  needs_technician = cell.needs_technician;
  escalated = false;
}
