-- ===== src/Common/Lists.antt =====
-- Lists measured by native numbers, predicates on lists, and Boolean searches.
use Prim.Native.Nat.{ℕ, zero, suc, ◌+◌, ◌-◌, ◌≤◌}
use mathlib.Core.Path.{◌≡◌, refl, ap}
use mathlib.Core.Logic.{◌↔◌, ◌⊎◌, inl, inr}
use mathlib.Core.Bool.{Bool, true, false, ◌&&◌, ◌||◌}
use mathlib.Core.List.{List, [], ◌∷◌, ◌++◌, map}
use native.Mathlib.Omega.{arith}
use audiax_backend.Common.Tests.{Bool-cases}

module _ {ℓ} {A : Type ℓ} where
  abbrev pub length : List A → ℕ
  length [] = 0
  length (x ∷ xs) = suc (length xs)

  abbrev pub take : ℕ → List A → List A
  take zero xs = []
  take (suc n) [] = []
  take (suc n) (x ∷ xs) = x ∷ take n xs

  pub length-take-le : (n : ℕ) (xs : List A) → length (take n xs) ≤ n
  length-take-le zero xs = omega arith
  length-take-le (suc n) [] = omega arith
  length-take-le (suc n) (x ∷ xs) = omega (arith, length-take-le n xs)

  pub take_all : (n : ℕ) (xs : List A) → length xs ≤ n → take n xs ≡ xs
  take_all zero [] h = refl
  take_all zero (x ∷ xs) h = absurd (omega arith)
  take_all (suc n) [] h = refl
  take_all (suc n) (x ∷ xs) h = ap (λ l. x ∷ l) (take_all n xs (omega arith))

  abbrev pub drop : ℕ → List A → List A
  drop zero xs = xs
  drop (suc n) [] = []
  drop (suc n) (x ∷ xs) = drop n xs

  pub length-append : (xs ys : List A) → length (xs ++ ys) ≡ length xs + length ys
  length-append [] ys = omega arith
  length-append (x ∷ xs) ys = omega (arith, length-append xs ys)

  pub length-drop : (n : ℕ) (xs : List A) → length (drop n xs) ≡ length xs - n
  length-drop zero xs = omega arith
  length-drop (suc n) [] = omega arith
  length-drop (suc n) (x ∷ xs) = omega (arith, length-drop n xs)

  -- What `drop` leaves is a tail of the list.
  pub drop_tail : (n : ℕ) (xs : List A) → (front : List A) × (xs ≡ front ++ drop n xs)
  drop_tail zero xs = ([], refl)
  drop_tail (suc n) [] = ([], refl)
  drop_tail (suc n) (x ∷ xs) = let (front, e) = drop_tail n xs in (x ∷ front, ap (λ l. x ∷ l) e)

  -- `any` and `all` of the code's loops that return at the first hit.
  abbrev pub any : (A → Bool) → List A → Bool
  any p [] = false
  any p (x ∷ xs) = p x || any p xs

  abbrev pub all : (A → Bool) → List A → Bool
  all p [] = true
  all p (x ∷ xs) = p x && all p xs

  -- `for _, x := range xs { if p(x) { out = append(out, x) } }`
  abbrev pub select : (A → Bool) → List A → List A
  select p [] = []
  select p (x ∷ xs) = elim (p x) [ true ↦ x ∷ select p xs | false ↦ select p xs ]

module _ {ℓ κ} {A : Type ℓ} (P : A → Type κ) where
  abbrev pub All : List A → Type κ
  All [] = Unit
  All (x ∷ xs) = P x × All xs

-- `x` is an element of the list.
abbrev pub In : {A : Type 0} → A → List A → Type 0
In x [] = ⊥
In x (y ∷ ys) = (x ≡ y) ⊎ In x ys

pub All-In : {A : Type 0} (P : A → Type 0) (xs : List A) (x : A) → All P xs → In x xs → P x
All-In P [] x _ i = elim i [ ]
All-In P (y ∷ ys) x (p, ps) (inl e) = rw e p
All-In P (y ∷ ys) x (p, ps) (inr i) = All-In P ys x ps i

-- A Boolean check of every element, read at one element.
pub all-In :
    {A : Type 0} (p : A → Bool) (xs : List A) (x : A) → all p xs ≡ true → In x xs → p x ≡ true
all-In p [] x h i = elim i [ ]
all-In p (y ∷ ys) x h (inl e) = rw e (ground arith)
all-In p (y ∷ ys) x h (inr i) = all-In p ys x (ground arith) i

select_sound :
    {A : Type 0} (p : A → Bool) (xs : List A) (x : A) → In x (select p xs) → In x xs × (p x ≡ true)
select_sound p [] x i = absurd i
select_sound p (y ∷ ys) x i = elim (Bool-cases (p y)) [
  | inl kept ↦ ground (arith, select_sound p ys x)
  | inr dropped ↦ ground (arith, select_sound p ys x)
]

select_complete :
    {A : Type 0} (p : A → Bool) (xs : List A) (x : A) → In x xs → p x ≡ true → In x (select p xs)
select_complete p [] x i h = elim i [ ]
select_complete p (y ∷ ys) x (inl e) h = ground arith
select_complete p (y ∷ ys) x (inr i) h = ground (arith, select_complete p ys x i h)

-- What `select` keeps is in the list and passes the test, and nothing else is lost.
pub select-In :
    {A : Type 0} (p : A → Bool) (xs : List A) (x : A)
    → In x (select p xs) ↔ (In x xs × (p x ≡ true))
select-In p xs x = (select_sound p xs x, λ h. select_complete p xs x h.0 h.1)

pub cons_of_In :
    {A : Type 0} (xs : List A) (x : A) → In x xs → (y : A) × (ys : List A) × (xs ≡ y ∷ ys)
cons_of_In [] x i = elim i [ ]
cons_of_In (y ∷ ys) x i = (y, ys, refl)

-- An element of `map f l` is `f` of one of `l`.
pub In-map-source :
    {A B : Type 0} (f : A → B) (b : B) (l : List A) → In b (map f l) → (a : A) × In a l × (b ≡ f a)
In-map-source f b [] i = absurd i
In-map-source f b (x ∷ l) (inl e) = (x, inl refl, e)
In-map-source f b (x ∷ l) (inr i) = let (a, j, e) = In-map-source f b l i in (a, inr j, e)

pub In-map : {A B : Type 0} (f : A → B) (a : A) (l : List A) → In a l → In (f a) (map f l)
In-map f a [] i = absurd i
In-map f a (x ∷ l) (inl e) = inl (ap f e)
In-map f a (x ∷ l) (inr i) = inr (In-map f a l i)

-- An element of `xs ++ ys` is one of `xs` or one of `ys`.
module _ {A : Type 0} (a : A) where
  pub In-append : (xs ys : List A) → In a (xs ++ ys) → In a xs ⊎ In a ys
  In-append [] ys i = inr i
  In-append (x ∷ xs) ys (inl e) = inl (inl e)
  In-append (x ∷ xs) ys (inr i) = elim (In-append xs ys i) [
    | inl here ↦ inl (inr here)
    | inr there ↦ inr there
  ]

  pub In-append_left : (xs ys : List A) → In a xs → In a (xs ++ ys)
  In-append_left [] ys i = absurd i
  In-append_left (x ∷ xs) ys (inl e) = inl e
  In-append_left (x ∷ xs) ys (inr i) = inr (In-append_left xs ys i)

  pub In-append_right : (xs ys : List A) → In a ys → In a (xs ++ ys)
  In-append_right [] ys i = i
  In-append_right (x ∷ xs) ys i = inr (In-append_right xs ys i)
