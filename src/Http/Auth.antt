-- ===== src/Http/Auth.antt =====
-- internal/delivery/http/middleware/auth.go
pub mod Bearer
use audiax_backend.Common.{ℕ, Bool, Option, none, some, List, [], ◌∷◌, map, nat_eq, if◌then◌else◌}
use audiax_backend.Common.Text.{Text, ◌==◌, ascii_lower, trim_space}
use audiax_backend.Constants.{auth_scheme}
use audiax_backend.Errors.{Error, sentinel, unauthorized}
use audiax_backend.Exec.{Result, ok, err, Exec, on_error, ◌>>=◌}
use audiax_backend.Model.{Auth}
use audiax_backend.Usecase.User.{UserUseCase, verify}

abbrev pub onto_front : ℕ → Option (Text × Text) → Option (Text × Text)
onto_front c none = none
onto_front c (some (before, after)) = some (c ∷ before, after)

-- strings.Cut at a separator of one code point, with `none` for not found
unfoldable pub cut : Text → ℕ → Option (Text × Text)
cut [] sep = none
cut (c ∷ s) sep = let rest = cut s sep in if nat_eq c sep then some ([], s) else onto_front c rest

-- strings.EqualFold with a word of ASCII letters other than k and s, whose only case variants are
-- the two ASCII ones
unfoldable pub equal_fold : Text → Text → Bool
equal_fold s t = map ascii_lower s == map ascii_lower t

abbrev pub token_of : Option (Text × Text) → Text
token_of none = []
token_of (some (scheme, token)) = if equal_fold scheme auth_scheme then trim_space token else []

unfoldable pub bearer_token : Text → Text
bearer_token header = token_of (cut header b' ')

-- `NewAuth`: `next` is the rest of the chain of handlers, which reads the identity
unfoldable pub new_auth : {W A : Type 0} → UserUseCase W → Text → (Auth → Exec W A) → Exec W A
new_auth uc header next = do
  let token = bearer_token header
  user_id ← on_error (λ e. sentinel unauthorized) (verify uc token)
  next (record { user_id = user_id; token = token })
