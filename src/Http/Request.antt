-- ===== src/Http/Request.antt =====
-- What a handler of internal/delivery/http reads of a request and writes as a response.
use audiax_backend.Common.{ℕ, Option, none, some, List}
use audiax_backend.Common.Text.{Text, text}
use audiax_backend.Errors.{fiber}
use audiax_backend.Exec.{Exec, pure, raise}
use audiax_backend.Floats.{Floats}
use audiax_backend.Model.{
  CreateMachineRequest, UpdateMachineRequest, RegisterUserRequest, LoginUserRequest,
  UpdateUserRequest, AdvisoryMessageRequest, MachineResponse, UserResponse, SessionResponse,
  BaselineResponse, InspectionResponse, AdvisoryMessageResponse,
}

-- The content of an uploaded file, when it is opened and read.
pub data Content : Type 0 where
  unopened unreadable : Content
  readable : List ℕ → Content

-- *multipart.FileHeader
pub record FileHeader : Type 0 where
  pub filename : Text
  pub size : ℕ
  pub content : Content

-- What the handlers read of *fiber.Ctx: the header Authorization, the parameters of the path, the
-- body, and the file in the field "audio" of a form, with `none` for an error.
pub record HttpRequest : Type 0 where
  pub authorization : Text
  pub machine_id : Text
  pub inspection_id : Text
  pub body : List ℕ
  pub form_file : Option FileHeader

-- (*fiber.Ctx).BodyParser at the types of the requests
pub record BodyParser : Type 0 where
  pub register : List ℕ → Option RegisterUserRequest
  pub login : List ℕ → Option LoginUserRequest
  pub update_user : List ℕ → Option UpdateUserRequest
  pub create_machine : List ℕ → Option CreateMachineRequest
  pub update_machine : List ℕ → Option UpdateMachineRequest
  pub advisory_message : List ℕ → Option AdvisoryMessageRequest

-- model.WebResponse at its types; `empty` is the body of SendStatus
pub data Body (fl : Floats) : Type 0 where
  user : UserResponse → Body fl
  session : SessionResponse → Body fl
  machine : MachineResponse → Body fl
  machines : List MachineResponse → Body fl
  baseline : BaselineResponse → Body fl
  baselines : List BaselineResponse → Body fl
  inspection : InspectionResponse fl → Body fl
  inspections : List (InspectionResponse fl) → Body fl
  message : AdvisoryMessageResponse → Body fl
  health : Text → Body fl
  empty : Body fl

pub record Response (fl : Floats) : Type 0 where
  pub status : ℕ
  pub body : Body fl

abbrev pub json : {fl : Floats} → ℕ → Body fl → Response fl
json status body = record { status = status; body = body }

-- `if err := ctx.BodyParser(request); err != nil { return fiber.NewError(400, ...) }`
abbrev pub parsed : {W A : Type 0} → Option A → Exec W A
parsed none = raise (fiber 400 (text "malformed request body"))
parsed (some a) = pure a
