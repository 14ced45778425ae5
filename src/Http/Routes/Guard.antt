-- ===== src/Http/Routes/Guard.antt =====
-- Which routes are open, and what the others answer without a session.
use audiax_backend.Common.{◌≡◌, refl, ◌⊎◌, inl, inr, List, [], ◌∷◌, In, All, All-In}
use audiax_backend.Common.Text.{Text, text}
use audiax_backend.Errors.{Error, is, as_rejected, as_validation}
use audiax_backend.Exec.{err, Exec}
use audiax_backend.Floats.{Floats}
use audiax_backend.Model.{Auth}
use audiax_backend.Usecase.Codec.{Codec}
use audiax_backend.Usecase.User.{verify}
use audiax_backend.Http.Request.{HttpRequest, Response}
use audiax_backend.Http.Auth.{bearer_token, new_auth}
use audiax_backend.Http.ErrorHandler.{handle_other, error_handler}
use audiax_backend.Http.Routes.{
  RouteConfig, Route, Method, authed, guest_routes, auth_routes, setup, serve,
}

abbrev pub open_paths : List Text
open_paths = text "/healthz" ∷ text "/api/users" ∷ text "/api/users/_login" ∷ []

module _ {fl : Floats} {c : Codec} {W : Type 0} (config : RouteConfig fl c W) where
  -- A request whose token cannot be verified is answered with 401, in the world that the
  -- verification left.
  abbrev pub IsGuarded : Route fl W → Type 0
  IsGuarded route =
      (req : HttpRequest) (w w' : W) (e : Error)
      → verify config.users (bearer_token req.authorization) w ≡ (err e, w')
      → serve route req w ≡ ((401, inr (record { error = text "unauthorized"; fields = [] })), w')

  authed-IsGuarded :
      (method : Method) (path : Text) (handler : Auth → HttpRequest → Exec W (Response fl))
      → IsGuarded (authed config method path handler)
  unfolding serve new_auth error_handler handle_other is as_rejected as_validation
  authed-IsGuarded method path handler req w w' e failed = rw failed refl

  -- A route of the table is open by its path, or guarded.
  abbrev pub IsOpenOrGuarded : Route fl W → Type 0
  IsOpenOrGuarded route = In route.path open_paths ⊎ IsGuarded route

  guarded :
      (method : Method) (path : Text) (handler : Auth → HttpRequest → Exec W (Response fl))
      → IsOpenOrGuarded (authed config method path handler)
  guarded method path handler = inr (authed-IsGuarded method path handler)

  setup-IsOpenOrGuarded : All IsOpenOrGuarded (setup config)
  unfolding setup guest_routes auth_routes
  setup-IsOpenOrGuarded = (
    inl (inl refl),
    (
      inl (inr (inl refl)),
      (
        inl (inr (inr (inl refl))),
        (
          guarded _ _ _,
          (
            guarded _ _ _,
            (
              guarded _ _ _,
              (
                guarded _ _ _,
                (
                  guarded _ _ _,
                  (
                    guarded _ _ _,
                    (
                      guarded _ _ _,
                      (
                        guarded _ _ _,
                        (
                          guarded _ _ _,
                          (guarded _ _ _, (guarded _ _ _, (guarded _ _ _, (guarded _ _ _, tt)))),
                        ),
                      ),
                    ),
                  ),
                ),
              ),
            ),
          ),
        ),
      ),
    ),
  )

  -- Every route is one of the three open paths (health, registration, login), or guarded: a request
  -- whose token cannot be verified is answered with 401 and nothing more is done.
  pub routes-IsGuarded :
      (route : Route fl W) → In route (setup config) → In route.path open_paths ⊎ IsGuarded route
  routes-IsGuarded route i = All-In IsOpenOrGuarded (setup config) route setup-IsOpenOrGuarded i
