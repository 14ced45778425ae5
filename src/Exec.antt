-- ===== src/Exec.antt =====
-- Calls that may fail and that change the world: a method of the program that returns (T, error)
-- is a function from the world before to its result and the world after.
use audiax_backend.Common.{◌≡◌, refl, Option, none, some}
use audiax_backend.Errors.{Error}

pub data Result {ℓ} (A : Type ℓ) : Type ℓ where
  ok : A → Result A
  err : Error → Result A

abbrev pub map_error {ℓ} : {A : Type ℓ} → (Error → Error) → Result A → Result A
map_error f (ok a) = ok a
map_error f (err e) = err (f e)

-- `if err != nil { return nil, err }` behind a call that has no effect on the world
abbrev pub bind {ℓ} : {A B : Type ℓ} → Result A → (A → Result B) → Result B
bind (ok a) f = f a
bind (err e) f = err e

pub bind-ok {ℓ} :
    {A B : Type ℓ} (r : Result A) (f : A → Result B) (b : B)
    → bind r f ≡ ok b
    → (a : A) × (r ≡ ok a) × (f a ≡ ok b)
bind-ok (ok a) f b h = (a, refl, h)
bind-ok (err e) f b h = cc

pub map_error-ok {ℓ} :
    {A : Type ℓ} (f : Error → Error) (r : Result A) (a : A) → map_error f r ≡ ok a → r ≡ ok a
map_error-ok f (ok b) a h = h
map_error-ok f (err e) a h = cc

abbrev pub Exec {ℓ} : Type ℓ → Type ℓ → Type ℓ
Exec W A = W → Result A × W

module _ {ℓ} {W A : Type ℓ} where
  abbrev pub pure : A → Exec W A
  pure a w = (ok a, w)

  abbrev pub raise : Error → Exec W A
  raise e w = (err e, w)

  -- `if err != nil { return nil, f(err) }`
  abbrev pub on_error : (Error → Error) → Exec W A → Exec W A
  on_error f m w = (map_error f (m w).0, (m w).1)

  -- The result of a call whose error the caller does not return.
  abbrev pub attempt : Exec W A → Exec W (Result A)
  attempt m w = (ok (m w).0, (m w).1)

  -- A call that cannot fail.
  abbrev pub total : (W → A × W) → Exec W A
  total m w = (ok (m w).0, (m w).1)

  abbrev pub lift : Result A → Exec W A
  lift r w = (r, w)

-- `if err := ...; err != nil { return nil, err }` of a check
abbrev pub reject_if {ℓ} : {W : Type ℓ} → Option Error → Exec W Unit
reject_if none = pure tt
reject_if (some e) = raise e

module _ {ℓ} {W A B : Type ℓ} where
  abbrev pub continue : Result A → (A → Exec W B) → Exec W B
  continue (ok a) f w = f a w
  continue (err e) f w = (err e, w)

  infixl 10 ◌>>=◌ ◌>>◌
  abbrev pub ◌>>=◌ : Exec W A → (A → Exec W B) → Exec W B
  ◌>>=◌ m f w = continue (m w).0 f (m w).1

  abbrev pub ◌>>◌ : Exec W A → Exec W B → Exec W B
  m >> n = m >>= λ _. n

module _ {ℓ} {W A : Type ℓ} where
  -- What a call that succeeded has done before.
  pub on_error_ok :
      (f : Error → Error) (m : Exec W A) (w w' : W) {a : A}
      → on_error f m w ≡ (ok a, w')
      → m w ≡ (ok a, w')
  on_error_ok f m w w' {a} h = mapped_ok (m w) h
    where
      mapped_ok :
          (p : Result A × W)
          → Path (Result A × W) (map_error f p.0, p.1) (ok a, w')
          → p ≡ (ok a, w')
      mapped_ok (ok b, v) e = e
      mapped_ok (err x, v) e = cc

module _ {ℓ} {W A B : Type ℓ} where
  pub continue_ok :
      (m : Exec W A) (f : A → Exec W B) (w w' : W) {b : B}
      → (m >>= f) w ≡ (ok b, w')
      → (a : A) × (v : W) × (m w ≡ (ok a, v)) × (f a v ≡ (ok b, w'))
  continue_ok m f w w' {b} h = stepped (m w) refl h
    where
      stepped :
          (p : Result A × W)
          → m w ≡ p
          → continue p.0 f p.1 ≡ (ok b, w')
          → (a : A) × (v : W) × (m w ≡ (ok a, v)) × (f a v ≡ (ok b, w'))
      stepped (ok a, v) e h = (a, v, e, h)
      stepped (err x, v) e h = cc

pub pure_ok : {A W : Type 0} (a b : A) (w w' : W) → Path (Result A × W) (ok a, w) (ok b, w') → a ≡ b
pure_ok a b w w' h = cc
