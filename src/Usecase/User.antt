-- ===== src/Usecase/User.antt =====
-- internal/usecase/user.go
pub mod Login
pub mod Revocation
use audiax_backend.Common.{
  ℕ, ◌+◌, Bool, true, false, Option, none, some, List, [], ◌∷◌, ◌++◌, if◌then◌else◌,
}
use audiax_backend.Common.Text.{Text, text, is_empty, trim_space, Unicode, to_lower}
use audiax_backend.Errors.{
  Error, sentinel, unauthorized, conflict, duplicated_key, record_not_found, wrap, is,
}
use audiax_backend.Exec.{
  Result, ok, err, Exec, pure, raise, on_error, total, reject_if, ◌>>=◌, ◌>>◌,
}
use audiax_backend.Entity.{Time, User}
use audiax_backend.Model.{
  RegisterUserRequest, LoginUserRequest, UpdateUserRequest, UserResponse, SessionResponse,
  user_to_response,
}
use audiax_backend.Usecase.Ports.{UserRepository, SessionRepository, not_found_or}
use audiax_backend.Usecase.Validation.{Outcome, validate_struct}

-- the fields of UserUseCase; `generate` is bcrypt.GenerateFromPassword at the configured cost, which
-- draws a salt, `matches` is bcrypt.CompareHashAndPassword, true for no error
pub record UserUseCase (W : Type 0) : Type 0 where
  pub unicode : Unicode
  pub validate_register : RegisterUserRequest → Outcome
  pub validate_login : LoginUserRequest → Outcome
  pub validate_update : UpdateUserRequest → Outcome
  pub users : UserRepository W
  pub sessions : SessionRepository W
  pub session_ttl : Time
  pub generate : Text → Exec W Text
  pub matches : Text → Text → Bool
  pub now : W → Time × W
  pub new_id : W → Text × W

unfoldable pub normalise_email : Unicode → Text → Text
normalise_email u email = to_lower u (trim_space email)

unfoldable pub email_taken : Error → Error
email_taken e = if is e duplicated_key then sentinel conflict else wrap (text "create user: ") e

-- an unknown address; the comparison with the dummy hash, which only takes time, is left out
unfoldable pub unknown_user : Error → Error
unknown_user e =
    if is e record_not_found then sentinel unauthorized else wrap (text "find user by email: ") e

abbrev pub normalised_register : Unicode → RegisterUserRequest → RegisterUserRequest
normalised_register u request = record request {
  email = normalise_email u request.email;
  name = trim_space request.name;
}

abbrev pub normalised_login : Unicode → LoginUserRequest → LoginUserRequest
normalised_login u request = record request { email = normalise_email u request.email }

abbrev pub new_user : Text → Text → RegisterUserRequest → User
new_user id hash request = record {
  id = id;
  email = request.email;
  name = request.name;
  password_hash = hash;
  created_at = 0;
  updated_at = 0;
}

-- `if request.Name != nil { fields["name"] = strings.TrimSpace(*request.Name) }`
abbrev pub name_column : Option Text → List (Text × Text)
name_column none = []
name_column (some name) = (text "name", trim_space name) ∷ []

module _ {W : Type 0} (uc : UserUseCase W) where
  unfoldable pub register : RegisterUserRequest → Exec W UserResponse
  register given = do
    let request = normalised_register uc.unicode given
    reject_if (validate_struct (uc.validate_register request))
    hash ← on_error (wrap (text "hash password: ")) (uc.generate request.password)
    id ← total uc.new_id
    user ← on_error email_taken (uc.users.create (new_user id hash request))
    pure (user_to_response user)

  abbrev pub open_session : Bool → User → Exec W SessionResponse
  open_session false user = raise (sentinel unauthorized)
  open_session true user = do
    token ← uc.sessions.create user.id uc.session_ttl
    time ← total uc.now
    pure (record { token = token; expires_at = time + uc.session_ttl })

  unfoldable pub login : LoginUserRequest → Exec W SessionResponse
  login given = do
    let request = normalised_login uc.unicode given
    reject_if (validate_struct (uc.validate_login request))
    user ← on_error unknown_user (uc.users.find_by_email request.email)
    open_session (uc.matches user.password_hash request.password) user

  unfoldable pub verify : Text → Exec W Text
  verify token =
      if is_empty token then raise (sentinel unauthorized) else uc.sessions.find_user_id token

  unfoldable pub current : Text → Exec W UserResponse
  current user_id = do
    user ← on_error (not_found_or (text "find user by id: ")) (uc.users.find_by_id user_id)
    pure (user_to_response user)

  abbrev pub password_column : Option Text → Exec W (List (Text × Text))
  password_column none = pure []
  password_column (some password) = do
    hash ← on_error (wrap (text "hash password: ")) (uc.generate password)
    pure ((text "password_hash", hash) ∷ [])

  -- a new password leaves no old token usable
  abbrev pub revoke : Option Text → User → Exec W Unit
  revoke none user = pure tt
  revoke (some password) user = uc.sessions.delete_all_for_user user.id

  -- `if len(fields) == 0`, else the write and the revocation
  abbrev pub write : UpdateUserRequest → User → List (Text × Text) → Exec W UserResponse
  write request user [] = pure (user_to_response user)
  write request user (c ∷ columns) = do
    row ← on_error (wrap (text "update user: ")) (uc.users.update user (c ∷ columns))
    revoke request.password row
    pure (user_to_response row)

  unfoldable pub update : UpdateUserRequest → Exec W UserResponse
  update request = do
    reject_if (validate_struct (uc.validate_update request))
    user ← on_error (not_found_or (text "find user by id: ")) (uc.users.find_by_id request.user_id)
    hashed ← password_column request.password
    write request user (name_column request.name ++ hashed)

  unfoldable pub logout : Text → Exec W Unit
  logout token = uc.sessions.delete token
