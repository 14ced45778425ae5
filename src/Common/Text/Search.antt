-- ===== src/Common/Text/Search.antt =====
-- Searching text: `==`, `has_prefix`, `index` and `contains` against their meaning as equations.
use mathlib.Core.Option
use audiax_backend.Common.{
  ℕ, suc, ◌≤◌, ◌≡◌, refl, ap, ◌↔◌, inl, inr, true, some, [], ◌∷◌, ◌++◌, arith, length, Bool-cases,
  Option-cases,
}
use audiax_backend.Common.Text.{Text, ◌==◌, has_prefix, index, contains}

eq→path : (s t : Text) → (s == t) ≡ true → s ≡ t
unfolding ◌==◌
eq→path [] [] h = refl
eq→path (a ∷ s) (b ∷ t) h = ground (arith, eq→path s t)
eq→path [] (b ∷ t) h = cc
eq→path (a ∷ s) [] h = cc

pub eq_refl : (s : Text) → (s == s) ≡ true
unfolding ◌==◌
eq_refl [] = refl
eq_refl (a ∷ s) = ground (arith, eq_refl s)

pub eq_iff : (s t : Text) → ((s == t) ≡ true) ↔ (s ≡ t)
eq_iff s t = (eq→path s t, λ e. rw e (eq_refl t))

-- `p` stands in `s` behind `before`.
pub record Occurs (s p before : Text) : Type 0 where
  pub after : Text
  pub split_at : s ≡ before ++ (p ++ after)

has_prefix_sound : (s p : Text) → has_prefix s p ≡ true → (rest : Text) × (s ≡ p ++ rest)
unfolding has_prefix
has_prefix_sound s [] h = (s, refl)
has_prefix_sound [] (p ∷ ps) h = cc
has_prefix_sound (c ∷ s) (p ∷ ps) h =
    let (rest, e) = has_prefix_sound s ps (ground arith) in (rest, ground arith)

has_prefix_complete : (p rest : Text) → has_prefix (p ++ rest) p ≡ true
unfolding has_prefix
has_prefix_complete [] rest = refl
has_prefix_complete (c ∷ p) rest = ground (arith, has_prefix_complete p rest)

-- What `index` returns is the place of an occurrence.
pub index_sound :
    (s p : Text) (i : ℕ)
    → index s p ≡ some i
    → (before : Text) × Occurs s p before × (length before ≡ i)
unfolding index
index_sound [] p i h = elim (Bool-cases (has_prefix [] p)) [
  | inl here ↦
      let (rest, e) = has_prefix_sound [] p here in
      ([], record { after = rest; split_at = e }, ground arith)
  | inr gone ↦ ground arith
]
index_sound (c ∷ s) p i h = elim (Bool-cases (has_prefix (c ∷ s) p)) [
  | inl here ↦
      let (rest, e) = has_prefix_sound (c ∷ s) p here in
      ([], record { after = rest; split_at = e }, ground arith)
  | inr gone ↦
      let (j, found, same) = (Option.map-eq-some_iff _ _).0 (rw gone at h) in
      let (before, o, e) = index_sound s p j found in
      (c ∷ before, record { after = o.after; split_at = ap (λ t. c ∷ t) o.split_at }, omega arith)
]

index_here : (s p : Text) → has_prefix s p ≡ true → index s p ≡ some 0
unfolding index
index_here [] p h = ground arith
index_here (c ∷ s) p h = ground arith

-- An occurrence is found, at or before its place.
pub index_complete :
    (before p after : Text)
    → (i : ℕ) × (index (before ++ (p ++ after)) p ≡ some i) × (i ≤ length before)
unfolding index
index_complete [] p after =
    (0, index_here (p ++ after) p (has_prefix_complete p after), omega arith)
index_complete (c ∷ before) p after =
    elim (Bool-cases (has_prefix (c ∷ (before ++ (p ++ after))) p)) [
      | inl here ↦ (0, ground arith, omega arith)
      | inr later ↦
          let (i, found, le) = index_complete before p after in
          (suc i, ground (arith, found), omega arith)
    ]

-- `p` stands somewhere in `s`.
abbrev pub Contains : Text → Text → Type 0
Contains s p = (before : Text) × Occurs s p before

contains_sound : (s p : Text) → contains s p ≡ true → Contains s p
unfolding contains
contains_sound s p h = elim (Option-cases (index s p)) [
  | inl missing ↦ ground arith
  | inr (i, found) ↦ let (before, o, _) = index_sound s p i found in (before, o)
]

contains_complete : (s p : Text) → Contains s p → contains s p ≡ true
unfolding contains
contains_complete s p (before, o) =
    let (i, found, _) = index_complete before p o.after in ground (arith, found, o.split_at)

-- `contains` decides whether the pattern stands in the text.
pub contains_iff : (s p : Text) → (contains s p ≡ true) ↔ Contains s p
contains_iff s p = (contains_sound s p, contains_complete s p)
