-- ===== src/Usecase/User/Login.antt =====
-- Who is let in, and what a failed login says.
use audiax_backend.Common.{◌≡◌, refl, true, false, none}
use audiax_backend.Errors.{Error, sentinel, unauthorized, record_not_found, is}
use audiax_backend.Exec.{ok, err}
use audiax_backend.Entity.{User}
use audiax_backend.Model.{LoginUserRequest}
use audiax_backend.Usecase.Validation.{validate_struct}
use audiax_backend.Usecase.User.{
  UserUseCase, normalise_email, normalised_login, unknown_user, login,
}

module _ {W : Type 0} (uc : UserUseCase W) (request : LoginUserRequest) (w : W)
    (valid : validate_struct (uc.validate_login (normalised_login uc.unicode request)) ≡ none) where
  -- A valid login with an unknown address and one with a known address and a wrong password end with
  -- the same error, and no session is opened: the world is as the lookup left it.
  pub failed_logins_alike :
      (w' : W)
      → ((e : Error)
          → uc.users.find_by_email (normalise_email uc.unicode request.email) w ≡ (err e, w')
          → is e record_not_found ≡ true
          → login uc request w ≡ (err (sentinel unauthorized), w'))
        × ((user : User)
            → uc.users.find_by_email (normalise_email uc.unicode request.email) w ≡ (ok user, w')
            → uc.matches user.password_hash request.password ≡ false
            → login uc request w ≡ (err (sentinel unauthorized), w'))
  unfolding login unknown_user
  failed_logins_alike w' = (
    λ e missing gone. rw (valid, missing, gone) refl,
    λ user found wrong. rw (valid, found, wrong) refl,
  )
