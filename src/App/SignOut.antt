-- ===== src/App/SignOut.antt =====
-- A token after the logout, at every endpoint.
use audiax_backend.Common.{◌≡◌, refl, ap, ◌⊎◌, inl, inr, In, [], ◌∙◌, Bool-cases}
use audiax_backend.Common.Text.{Text, text, is_empty}
use audiax_backend.Errors.{Error, sentinel, unauthorized}
use audiax_backend.Exec.{pure, ok, err, on_error, continue_ok}
use audiax_backend.Floats.{Floats}
use audiax_backend.Usecase.Codec.{Codec}
use audiax_backend.Usecase.User.{verify}
use audiax_backend.Usecase.User
use audiax_backend.Repository.Session.Redis.{RedisLaws}
use audiax_backend.Repository.Session.{find_user_id, delete}
use audiax_backend.Repository.Session.Lifetime.{deleted_session_unknown}
use audiax_backend.Http.Request.{HttpRequest, Response, json, empty}
use audiax_backend.Http.Auth.{bearer_token, new_auth}
use audiax_backend.Http.Controllers.{logout}
use audiax_backend.Http.Routes.{Route, serve}
use audiax_backend.Http.Routes.Guard.{open_paths, IsGuarded, routes-IsGuarded}
use audiax_backend.App.{Dependencies, user_use_case, route_config, new_app}

module _ {fl : Floats} {c : Codec} {Level W : Type 0} (deps : Dependencies fl c Level W) where
  -- A token that names no session cannot be verified.
  pub verify_unknown :
      (token : Text) (w : W)
      → (find_user_id deps.redis token w).0 ≡ err (sentinel unauthorized)
      → (v : W) × (verify (user_use_case deps) token w ≡ (err (sentinel unauthorized), v))
  unfolding verify
  verify_unknown token w h = elim (Bool-cases (is_empty token)) [
    | inl blank ↦ (w, rw blank refl)
    | inr filled ↦ (
      (find_user_id deps.redis token w).1,
      rw filled (ap (λ r. (r, (find_user_id deps.redis token w).1)) h),
    )
  ]

  -- A header whose token cannot be verified is answered with 401 by every guarded route.
  pub refused_everywhere :
      (req : HttpRequest) (token : Text) (w v : W) (e : Error)
      → bearer_token req.authorization ≡ token
      → verify (user_use_case deps) token w ≡ (err e, v)
      → (route : Route fl W) → In route (new_app deps)
      → In route.path open_paths
        ⊎ ((serve route req w).0 ≡ (401, inr (record { error = text "unauthorized"; fields = [] })))
  unfolding new_app
  refused_everywhere req token w v e same refused route listed =
      answered (routes-IsGuarded (route_config deps) route listed)
    where
      answered :
          In route.path open_paths ⊎ IsGuarded (route_config deps) route
          → In route.path open_paths
            ⊎ ((serve route req w).0
                ≡ (401, inr (record { error = text "unauthorized"; fields = [] })))
      answered (inl free) = inl free
      answered (inr guarded) = inr (
          ap (λ p. p.0)
            (guarded req w v e (ap (λ t. verify (user_use_case deps) t w) same ∙ refused)))

module _ {fl : Floats} {c : Codec} {Level W : Type 0} (deps : Dependencies fl c Level W)
    (laws : RedisLaws deps.redis) where
  -- The request that logs out was answered. Then every later request with the same header, if it is
  -- the next one to reach Redis, is answered with 401 by every route but the three open ones.
  pub signed_out_everywhere :
      (leaving req : HttpRequest) (w w' : W) (response : Response fl)
      → new_auth
          (user_use_case deps)
          leaving.authorization
          (λ auth. logout deps.parser (user_use_case deps) auth leaving)
          w
        ≡ (ok response, w')
      → req.authorization ≡ leaving.authorization
      → (route : Route fl W) → In route (new_app deps)
      → In route.path open_paths
        ⊎ ((serve route req w').0
            ≡ (401, inr (record { error = text "unauthorized"; fields = [] })))
  unfolding new_auth logout User.logout
  signed_out_everywhere leaving req w w' response left same route listed =
      let token = bearer_token leaving.authorization in
      let (user_id, v, _, next) =
        continue_ok (on_error (λ e. sentinel unauthorized) (verify (user_use_case deps) token))
          (λ user_id.
            logout deps.parser (user_use_case deps) (record { user_id = user_id; token = token })
              leaving)
          w w' left in
      let (_, v', deleted, ended) =
        continue_ok (delete deps.redis token) (λ _. pure (json 204 empty)) v w' next in
      let (v'', refused) = verify_unknown deps token w' (
        deleted_session_unknown deps.redis laws token v w'
          (deleted ∙ ap (λ u. (ok tt, u)) (ap (λ p. p.1) ended))) in
      refused_everywhere deps req token w' v'' (sentinel unauthorized) (ap bearer_token same)
        refused route listed
