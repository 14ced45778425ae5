-- ===== src/Http/Routes.antt =====
-- internal/delivery/http/route/route.go: the table of routes, with the middleware in front of the
-- routes of its group, and what fiber does with the result of a handler. fiber matches a request
-- with a route; the table is in the order of registration.
pub mod Guard
use audiax_backend.Common.{ℕ, ◌⊎◌, inl, inr, List, [], ◌∷◌, ◌++◌}
use audiax_backend.Common.Text.{Text, text}
use audiax_backend.Exec.{Result, ok, err, Exec, pure}
use audiax_backend.Floats.{Floats}
use audiax_backend.Model.{Auth, ErrorResponse}
use audiax_backend.Usecase.Codec.{Codec}
use audiax_backend.Usecase.User.{UserUseCase}
use audiax_backend.Usecase.Machine.{MachineUseCase}
use audiax_backend.Usecase.Baseline.{BaselineUseCase}
use audiax_backend.Usecase.Inspection.{InspectionUseCase}
use audiax_backend.Usecase.Advisory.{AdvisoryUseCase}
use audiax_backend.Http.Request.{HttpRequest, BodyParser, Body, health, Response, json}
use audiax_backend.Http.Auth.{new_auth}
use audiax_backend.Http.ErrorHandler.{error_handler}
use audiax_backend.Http.Controllers.{
  register, login, current, update_user, logout, create_machine, list_machines, get_machine,
  update_machine, delete_machine, calibrate, list_baselines, inspect, list_inspections,
  send_message,
}

-- the fields of RouteConfig: the controllers by their use cases; `template_hash` is
-- advisory.TemplateHash, a digest of the template
pub record RouteConfig (fl : Floats) (c : Codec) (W : Type 0) : Type 0 where
  pub parser : BodyParser
  pub users : UserUseCase W
  pub machines : MachineUseCase W
  pub baselines : BaselineUseCase fl c W
  pub inspections : InspectionUseCase fl c W
  pub advisory : AdvisoryUseCase fl W
  pub template_hash : Text

pub data Method : Type 0 where
  get post patch delete : Method

pub record Route (fl : Floats) (W : Type 0) : Type 0 where
  pub method : Method
  pub path : Text
  pub handler : HttpRequest → Exec W (Response fl)

module _ {fl : Floats} {c : Codec} {W : Type 0} (config : RouteConfig fl c W) where
  open config use {parser, users, machines, baselines, inspections, advisory}

  abbrev pub guest : Method → Text → (HttpRequest → Exec W (Response fl)) → Route fl W
  guest method path handler = record { method = method; path = path; handler = handler }

  -- a route of the group with the middleware
  abbrev pub authed : Method → Text → (Auth → HttpRequest → Exec W (Response fl)) → Route fl W
  authed method path handler = record {
    method = method;
    path = path;
    handler = λ req. new_auth users req.authorization (λ auth. handler auth req);
  }

  unfoldable pub guest_routes : List (Route fl W)
  guest_routes =
      guest post (text "/api/users") (register parser users)
      ∷ guest post (text "/api/users/_login") (login parser users)
      ∷ []

  unfoldable pub auth_routes : List (Route fl W)
  auth_routes =
      authed get (text "/api/users/_current") (current parser users)
      ∷ authed patch (text "/api/users/_current") (update_user parser users)
      ∷ authed delete (text "/api/users/_current") (logout parser users)
      ∷ authed post (text "/api/machines") (create_machine parser machines)
      ∷ authed get (text "/api/machines") (list_machines parser machines)
      ∷ authed get (text "/api/machines/:machineId") (get_machine parser machines)
      ∷ authed patch (text "/api/machines/:machineId") (update_machine parser machines)
      ∷ authed delete (text "/api/machines/:machineId") (delete_machine parser machines)
      ∷ authed post (text "/api/machines/:machineId/baselines") (calibrate baselines)
      ∷ authed get (text "/api/machines/:machineId/baselines") (list_baselines baselines)
      ∷ authed post (text "/api/machines/:machineId/inspections") (inspect inspections)
      ∷ authed get (text "/api/machines/:machineId/inspections") (list_inspections inspections)
      ∷ authed post (text "/api/machines/:machineId/inspections/:inspectionId/advisory/messages")
          (send_message parser advisory)
      ∷ []

  abbrev pub health_route : Route fl W
  health_route = guest get (text "/healthz") (λ req. pure (json 200 (health config.template_hash)))

  unfoldable pub setup : List (Route fl W)
  setup = health_route ∷ (guest_routes ++ auth_routes)

-- the answer to a request: the response of the handler, or what the error handler makes of its error
abbrev pub answer : {fl : Floats} → Result (Response fl) → ℕ × (Body fl ⊎ ErrorResponse)
answer (ok response) = (response.status, inl response.body)
answer (err e) = let (status, body) = error_handler e in (status, inr body)

unfoldable pub serve :
    {fl : Floats} {W : Type 0} → Route fl W → HttpRequest → W → (ℕ × (Body fl ⊎ ErrorResponse)) × W
serve route req w = let (result, w') = route.handler req w in (answer result, w')
