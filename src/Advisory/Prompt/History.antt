-- ===== src/Advisory/Prompt/History.antt =====
-- The turns of the conversation that the prompt shows.
use audiax_backend.Common.{
  ◌-◌, ◌≤◌, ◌≡◌, refl, inl, inr, List, [], ◌++◌, arith, leb, length, length-drop, drop_tail,
  Bool-cases,
}
use audiax_backend.Advisory.Prompt.{Turn, capped_history}

-- The prompt shows exactly the last eight turns of a conversation of eight turns or more, and a
-- conversation of at most eight turns is shown whole.
pub capped_history_lem :
    (history : List Turn)
    → (8 ≤ length history → length (capped_history history) ≡ 8)
      × ((earlier : List Turn) × (history ≡ earlier ++ capped_history history))
      × (length history ≤ 8 → capped_history history ≡ history)
unfolding capped_history
capped_history_lem history = elim (Bool-cases (leb (length history) 8)) [
  | inl short ↦ rw short (λ h. ground arith, ([], refl), λ _. refl)
  | inr long ↦ rw long (
    λ h. ground (arith, length-drop (length history - 8) history),
    drop_tail (length history - 8) history,
    λ h. ground arith,
  )
]
