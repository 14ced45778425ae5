-- ===== src/Common/Text/Trim.antt =====
-- What strings.TrimSpace leaves.
use mathlib.Core.List.{reverse, reverse-cons}
use audiax_backend.Common.{
  ℕ, Bool, ◌≡◌, refl, ◌↔◌, sym, ◌∙◌, inl, inr, Bool-cases, true, ◌&&◌, [], ◌∷◌, ◌++◌, arith, all,
}
use audiax_backend.Common.Text.{Text, is_empty, is_blank, is_space, trim_left, trim_space}

pub all-append : (p : ℕ → Bool) (s t : Text) → all p (s ++ t) ≡ (all p s && all p t)
all-append p [] t = refl
all-append p (c ∷ s) t = ground (arith, all-append p s t)

pub all-reverse : (p : ℕ → Bool) (s : Text) → all p (reverse s) ≡ all p s
all-reverse p [] = refl
all-reverse p (c ∷ s) =
    rw (reverse-cons, all-append p (reverse s) (c ∷ []), all-reverse p s) (ground arith)

trim_left-all : (s : Text) → all is_space (trim_left s) ≡ all is_space s
unfolding trim_left
trim_left-all [] = refl
trim_left-all (c ∷ s) = ground (arith, trim_left-all s)

trim_left_blank : (s : Text) → all is_space s ≡ true → trim_left s ≡ []
unfolding trim_left
trim_left_blank [] h = refl
trim_left_blank (c ∷ s) h = ground (arith, trim_left_blank s)

trim_space-all : (s : Text) → all is_space (trim_space s) ≡ all is_space s
unfolding trim_space
trim_space-all s = simp (all-reverse is_space, trim_left-all)

trim_space_blank : (s : Text) → all is_space s ≡ true → trim_space s ≡ []
unfolding trim_space
trim_space_blank s h = rw (trim_left_blank s h) refl

-- A text trims to nothing exactly when all of it is white space.
pub trim_space-eq-nil_iff : (s : Text) → (trim_space s ≡ []) ↔ (all is_space s ≡ true)
trim_space-eq-nil_iff s = (λ e. rw (← trim_space-all s) (rw e refl), trim_space_blank s)

pub is_empty_iff : (s : Text) → (is_empty s ≡ true) ↔ (s ≡ [])
is_empty_iff [] = (λ _. refl, λ _. refl)
is_empty_iff (c ∷ s) = (λ h. cc, λ h. cc)

-- A text is blank if all of it is white space.
pub is_blank-eq-all : (s : Text) → is_blank s ≡ all is_space s
is_blank-eq-all s = elim (Bool-cases (all is_space s)) [
  | inl blank ↦ rw ((trim_space-eq-nil_iff s).1 blank) (sym blank)
  | inr filled ↦ elim (Bool-cases (is_blank s)) [
    | inl empty ↦ cc ((trim_space-eq-nil_iff s).0 ((is_empty_iff (trim_space s)).0 empty))
    | inr given ↦ given ∙ sym filled
  ]
]
