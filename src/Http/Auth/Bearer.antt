-- ===== src/Http/Auth/Bearer.antt =====
-- Which headers carry a token, and what stands behind the middleware.
use audiax_backend.Common.{
  ℕ, ◌≡◌, ◌≢◌, refl, sym, ap, ◌∙◌, ◌⊎◌, inl, inr, Bool-cases, nat_eq, nat_eq_iff, Option, none,
  some, [], ◌∷◌, ◌++◌, map, All, arith,
}
use audiax_backend.Common.Text.{Text, text, ascii_lower, trim_space}
use audiax_backend.Common.Text.Search.{eq_iff}
use audiax_backend.Constants.{auth_scheme}
use audiax_backend.Errors.{Error, sentinel, unauthorized}
use audiax_backend.Exec.{Result, ok, err, Exec}
use audiax_backend.Model.{Auth}
use audiax_backend.Usecase.User.{UserUseCase, verify}
use audiax_backend.Http.Auth.{cut, onto_front, equal_fold, token_of, bearer_token, new_auth}

cut-append : (s t : Text) → All (λ c. c ≢ b' ') s → cut (s ++ b' ' ∷ t) b' ' ≡ some (s, t)
unfolding cut
cut-append [] t h = ground arith
cut-append (c ∷ s) t (here, h) = ground (arith, cut-append s t h)

-- Lower case makes no blank of a letter, and keeps a blank.
All-ascii_lower :
    (s l : Text) → map ascii_lower s ≡ l → All (λ c. c ≢ b' ') l → All (λ c. c ≢ b' ') s
unfolding ascii_lower
All-ascii_lower [] l h k = tt
All-ascii_lower (c ∷ s) [] h k = cc
All-ascii_lower (c ∷ s) (d ∷ l) h (here, k) =
    let first : ascii_lower c ≡ d = cc in
    let later : map ascii_lower s ≡ l = cc in
    ((λ blank. here (sym first ∙ rw blank refl)), All-ascii_lower s l later k)

bearer-All : All (λ c. c ≢ b' ') (text "bearer")
bearer-All = (
  (λ e. ground arith),
  (
    (λ e. ground arith),
    ((λ e. ground arith), ((λ e. ground arith), ((λ e. ground arith), ((λ e. ground arith), tt)))),
  ),
)

-- A header of the word "bearer" in any case, one blank and a token is read as the token, without the
-- white space around it.
pub bearer_token_lem :
    (scheme token : Text)
    → map ascii_lower scheme ≡ text "bearer"
    → bearer_token (scheme ++ b' ' ∷ token) ≡ trim_space token
unfolding bearer_token equal_fold ascii_lower
bearer_token_lem scheme token same =
    rw
      (
        cut-append scheme token (All-ascii_lower scheme (text "bearer") same bearer-All),
        (eq_iff _ _).1 same,
      )
      refl

onto_front_sound :
    (c : ℕ) (o : Option (Text × Text)) (s : Text) (sep : ℕ) (a b : Text)
    → ((d t : Text) → o ≡ some (d, t) → s ≡ d ++ sep ∷ t)
    → onto_front c o ≡ some (a, b)
    → c ∷ s ≡ a ++ sep ∷ b
onto_front_sound c none s sep a b ih h = cc
onto_front_sound c (some (d, t)) s sep a b ih h =
    let front : c ∷ d ≡ a = cc in
    let back : t ≡ b = cc in rw (← front, ← back) (ap (λ u. c ∷ u) (ih d t refl))

-- What is cut is the text, with the separator between.
cut_sound : (s : Text) (sep : ℕ) (a b : Text) → cut s sep ≡ some (a, b) → s ≡ a ++ sep ∷ b
unfolding cut
cut_sound [] sep a b h = cc
cut_sound (c ∷ s) sep a b h = elim (Bool-cases (nat_eq c sep)) [
  | inl here ↦
      let same : Path (Option (Text × Text)) (some ([], s)) (some (a, b)) = rw here at h in
      let front : [] ≡ a = cc in
      let back : s ≡ b = cc in rw (← front, ← back, (nat_eq_iff c sep).0 here) refl
  | inr there ↦ onto_front_sound c (cut s sep) s sep a b (cut_sound s sep) (rw there at h)
]

-- The header carries the token: the word "bearer" in any case, a blank, and the token, apart from the
-- white space around it.
abbrev pub IsBearer : Text → Text → Type 0
IsBearer header token =
    (scheme : Text) × (given : Text) × (header ≡ scheme ++ b' ' ∷ given)
    × (map ascii_lower scheme ≡ text "bearer")
    × (token ≡ trim_space given)

bearer_token_complete : (header token : Text) → IsBearer header token → bearer_token header ≡ token
bearer_token_complete header token (scheme, given, e, word, t) =
    rw (e, t) (bearer_token_lem scheme given word)

token_of_sound :
    (header : Text) (o : Option (Text × Text))
    → cut header b' ' ≡ o
    → token_of o ≢ []
    → IsBearer header (token_of o)
unfolding equal_fold ascii_lower
token_of_sound header none e given = absurd (given refl)
token_of_sound header (some (scheme, rest)) e given =
    elim (Bool-cases (equal_fold scheme auth_scheme)) [
      | inl bearer ↦
          (scheme, rest, cut_sound header b' ' scheme rest e, (eq_iff _ _).0 bearer, rw bearer refl)
      | inr other ↦ absurd (given (rw other refl))
    ]

bearer_token_sound :
    (header : Text) → bearer_token header ≢ [] → IsBearer header (bearer_token header)
unfolding bearer_token
bearer_token_sound header given = token_of_sound header (cut header b' ') refl given

module _ {W A : Type 0} (uc : UserUseCase W) (header : Text) (next : Auth → Exec W A) (w : W) where
  -- The header carries a token of a session, and the handler runs with the user of it.
  abbrev pub IsAuthorized : Type 0
  IsAuthorized =
      (token : Text) × (user_id : Text) × (w' : W) × IsBearer header token
      × (token ≢ [])
      × (uc.sessions.find_user_id token w ≡ (ok user_id, w'))
      × (new_auth uc header next w ≡ next (record { user_id = user_id; token = token }) w')

  -- The header carries no token, and the handler is not run and the store not asked.
  abbrev pub IsAnonymous : Type 0
  IsAnonymous =
      ((token : Text) → IsBearer header token → token ≡ [])
      × (new_auth uc header next w ≡ (err (sentinel unauthorized), w))

  -- The header carries a token that the store of the sessions does not answer for, and the handler is
  -- not run.
  abbrev pub IsRefused : Type 0
  IsRefused =
      (token : Text) × (e : Error) × (w' : W) × IsBearer header token
      × (token ≢ [])
      × (uc.sessions.find_user_id token w ≡ (err e, w'))
      × (new_auth uc header next w ≡ (err (sentinel unauthorized), w'))

  by_token :
      (token : Text)
      → bearer_token header ≡ token
      → (p : Result Text × W) → uc.sessions.find_user_id token w ≡ p
      → IsAuthorized ⊎ (IsAnonymous ⊎ IsRefused)
  unfolding new_auth verify
  by_token [] e p asked =
      inr (inl (λ token b. sym (bearer_token_complete header token b) ∙ e, rw e refl))
  by_token (c ∷ s) e (ok user_id, w') asked =
      inl (c ∷ s, user_id, w', given, (λ h. cc), asked, rw (e, asked) refl)
    where
      given : IsBearer header (c ∷ s)
      given = rw (← e) (bearer_token_sound header (rw e (λ h. cc)))
  by_token (c ∷ s) e (err x, w') asked =
      inr (inr (c ∷ s, x, w', given, (λ h. cc), asked, rw (e, asked) refl))
    where
      given : IsBearer header (c ∷ s)
      given = rw (← e) (bearer_token_sound header (rw e (λ h. cc)))

  -- Behind the middleware there are three cases. The header is the word "bearer" in any case, a blank
  -- and a token that is not empty, the store of the sessions gives a user for the token, and the handler
  -- runs with this user and this token. Or it carries no such token, and the request is unauthorized
  -- with nothing done. Or the store gives no user for the token, and the request is unauthorized. In the
  -- last two the handler is not run.
  pub auth_guards : IsAuthorized ⊎ (IsAnonymous ⊎ IsRefused)
  auth_guards =
      by_token (bearer_token header) refl (uc.sessions.find_user_id (bearer_token header) w) refl
