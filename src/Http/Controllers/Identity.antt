-- ===== src/Http/Controllers/Identity.antt =====
-- Whose request it is: the identity of the session and the ids of the path, never those of the body.
use audiax_backend.Common.{ℕ, ◌≡◌, refl, some, List}
use audiax_backend.Common.Text.{Text}
use audiax_backend.Floats.{Floats}
use audiax_backend.Model.{
  Auth, CreateMachineRequest, UpdateMachineRequest, UpdateUserRequest, AdvisoryMessageRequest,
}
use audiax_backend.Usecase.User.{UserUseCase}
use audiax_backend.Usecase.Machine.{MachineUseCase}
use audiax_backend.Usecase.Advisory.{AdvisoryUseCase}
use audiax_backend.Http.Request.{HttpRequest, BodyParser}
use audiax_backend.Http.Controllers.{create_machine, update_machine, update_user, send_message}

module _ {fl : Floats} {W : Type 0} (parser : BodyParser) (auth : Auth) (req : HttpRequest)
    (forged : List ℕ) (user_id machine_id inspection_id : Text) (w : W) where
  -- A body that names another user, machine or inspection has the same effect and the same answer as
  -- one that names none: in the creation and the update of a machine, in the update of a user and in
  -- an advisory message. The two bodies parse to requests that differ in these ids alone.
  pub body_ids_ignored :
      (users : UserUseCase W) (machines : MachineUseCase W) (advisory : AdvisoryUseCase fl W)
      → ((r : CreateMachineRequest)
          → parser.create_machine req.body ≡ some r
          → parser.create_machine forged ≡ some (record r { user_id = user_id })
          → create_machine {fl = fl} parser machines auth (record req { body = forged }) w
            ≡ create_machine parser machines auth req w)
        × ((r : UpdateMachineRequest)
            → parser.update_machine req.body ≡ some r
            → parser.update_machine forged
              ≡ some (record r { user_id = user_id; machine_id = machine_id })
            → update_machine {fl = fl} parser machines auth (record req { body = forged }) w
              ≡ update_machine parser machines auth req w)
        × ((r : UpdateUserRequest)
            → parser.update_user req.body ≡ some r
            → parser.update_user forged ≡ some (record r { user_id = user_id })
            → update_user {fl = fl} parser users auth (record req { body = forged }) w
              ≡ update_user parser users auth req w)
        × ((r : AdvisoryMessageRequest)
            → parser.advisory_message req.body ≡ some r
            → parser.advisory_message forged
              ≡ some (record r {
                user_id = user_id;
                machine_id = machine_id;
                inspection_id = inspection_id;
              })
            → send_message parser advisory auth (record req { body = forged }) w
              ≡ send_message parser advisory auth req w)
  unfolding create_machine update_machine update_user send_message
  body_ids_ignored users machines advisory = (
    λ r honest other. rw (honest, other) refl,
    λ r honest other. rw (honest, other) refl,
    λ r honest other. rw (honest, other) refl,
    λ r honest other. rw (honest, other) refl,
  )
