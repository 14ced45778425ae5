-- ===== src/App/PasswordChange.antt =====
-- A token after its user has changed the password, at every endpoint.
use audiax_backend.Common.{◌≡◌, ap, subst, ◌∙◌, ◌⊎◌, inr, In, some, []}
use audiax_backend.Common.Text.{Text, text}
use audiax_backend.Errors.{sentinel, unauthorized}
use audiax_backend.Exec.{ok, pure, continue_ok, ◌>>=◌}
use audiax_backend.Floats.{Floats}
use audiax_backend.Model.{Auth, UpdateUserRequest}
use audiax_backend.Usecase.Codec.{Codec}
use audiax_backend.Usecase.User
use audiax_backend.Repository.Session.Redis.{RedisLaws}
use audiax_backend.Repository.Session.{session_key, user_index_key}
use audiax_backend.Repository.Session.PasswordChange.{UserFrame, changed_unauthorized}
use audiax_backend.Http.Request.{HttpRequest, Response, json, parsed}
use audiax_backend.Http.Request
use audiax_backend.Http.Auth.{bearer_token}
use audiax_backend.Http.Controllers.{update_user}
use audiax_backend.Http.Routes.{Route, serve}
use audiax_backend.Http.Routes.Guard.{open_paths}
use audiax_backend.App.{Dependencies, user_use_case, new_app}
use audiax_backend.App.SignOut.{verify_unknown, refused_everywhere}

module _ {fl : Floats} {c : Codec} {Level W : Type 0} (deps : Dependencies fl c Level W)
    (laws : RedisLaws deps.redis) (frame : UserFrame laws (user_use_case deps)) where
  -- A user changed the password, and the update was answered. Then the next request with the token of any
  -- session that the index of the user knew before is answered with 401 by every route but the three
  -- open ones, and the user has to sign in again. Redis keeps its laws, and the table of the users and
  -- bcrypt leave the index alone.
  pub password_change_signs_out :
      (auth : Auth) (changing req : HttpRequest) (request : UpdateUserRequest)
      (password token : Text) (w w' : W) (response : Response fl)
      → deps.parser.update_user changing.body ≡ some request
      → request.password ≡ some password
      → In (session_key deps.redis token) (laws.members w (user_index_key auth.user_id))
      → update_user deps.parser (user_use_case deps) auth changing w ≡ (ok response, w')
      → bearer_token req.authorization ≡ token
      → (route : Route fl W) → In route (new_app deps)
      → In route.path open_paths
        ⊎ ((serve route req w').0
            ≡ (401, inr (record { error = text "unauthorized"; fields = [] })))
  unfolding update_user
  password_change_signs_out auth changing req request password token w w' response read given
        indexed changed same route listed =
      let asked = record request { user_id = auth.user_id } in
      let h =
        subst
          (λ p.
            (do
              r ← parsed p
              answered ← User.update (user_use_case deps) (record r { user_id = auth.user_id })
              pure (json 200 (Request.user answered)))
              w
            ≡ (ok response, w'))
          read changed in
      let (answered, v, updated, last) =
        continue_ok (User.update (user_use_case deps) asked)
          (λ answered. pure (json 200 (Request.user answered))) w w' h in
      let (u, refused) = verify_unknown deps token w' (
        changed_unauthorized laws (user_use_case deps) frame token password asked given w w'
          answered indexed (updated ∙ ap (λ p. (ok answered, p.1)) last)) in
      refused_everywhere deps req token w' u (sentinel unauthorized) same refused route listed
