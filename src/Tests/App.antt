-- ===== src/Tests/App.antt =====
-- The theorems on the wired program.
use audiax_backend.Common.{
  ℕ, arith, ◌≡◌, refl, ◌⊎◌, inl, inr, none, some, List, [], ◌∷◌, In, sym, ap,
}
use audiax_backend.Common.Text.{Text, text, ◌==◌, trim_space, ascii_lower, is_space}
use audiax_backend.Errors.{Error, sentinel, not_found, record_not_found, is}
use audiax_backend.Exec.{Result, ok, err}
use audiax_backend.Model.{
  user_to_response, CreateMachineRequest, UpdateMachineRequest, UpdateUserRequest,
  AdvisoryMessageRequest,
}
use audiax_backend.Usecase.Validation.{validate_struct}
use audiax_backend.Usecase.Machine.{trimmed_update}
use audiax_backend.Usecase.User.{verify}
use audiax_backend.Usecase.User
use audiax_backend.Repository.Session.{find_user_id}
use audiax_backend.Repository.Session
use audiax_backend.Repository.Machines.{find_by_id_for_user}
use audiax_backend.Http.Request.{HttpRequest, BodyParser, readable, Response, Body, json}
use audiax_backend.Http.Request
use audiax_backend.Http.Upload.{read_audio_upload}
use audiax_backend.Http.ErrorHandler.{error_handler}
use audiax_backend.Http.Auth.{bearer_token, new_auth, cut, equal_fold}
use audiax_backend.Http.Controllers.{
  create_machine, get_machine, update_machine, delete_machine, update_user, logout, calibrate,
  list_baselines, inspect, list_inspections, send_message, audio_request,
}
use audiax_backend.Http.Controllers.Identity.{body_ids_ignored}
use audiax_backend.Http.Routes.{Route, authed, delete, setup, guest_routes, auth_routes, serve}
use audiax_backend.Http.Routes.Guard.{open_paths, IsGuarded, routes-IsGuarded}
use audiax_backend.App.{validator, user_use_case, route_config, new_app}
use audiax_backend.App.Tenancy.{foreign_machine_not_found}
use audiax_backend.App.Outage.{told, outage_told}
use audiax_backend.Repository.Session.Lifetime.{create_indexed}
use audiax_backend.Tests.Services.{operator}
use audiax_backend.App.PasswordChange.{password_change_signs_out}
use audiax_backend.Repository.Session.PasswordChange.{UserFrame}
use audiax_backend.Repository.Base
use audiax_backend.Entity.{User}
use audiax_backend.App.SignOut.{signed_out_everywhere}
use audiax_backend.Tests.World.{numbers, ceiling_fan}
use audiax_backend.Tests.Sessions.{Memory, redis, redis_laws, opened, empty}
use audiax_backend.Tests.Wiring.{too_loud, parser, deps, session, asked_for}

abbrev logout_route : Route numbers Memory
logout_route =
    authed (route_config deps) delete (text "/api/users/_current")
      (logout parser (user_use_case deps))

logout_listed : In logout_route (setup (route_config deps))
unfolding setup guest_routes auth_routes
logout_listed = inr (inr (inr (inr (inr (inl refl)))))

routes-IsGuarded_example :
    In logout_route.path open_paths ⊎ IsGuarded (route_config deps) logout_route
routes-IsGuarded_example = routes-IsGuarded (route_config deps) logout_route logout_listed

abbrev unseen : Result (Response numbers) × Memory
unseen = (err (sentinel not_found), empty)

outage_told_example :
    (e : Error) × (calibrate (route_config deps).baselines session (asked_for (text "m1")) empty
      ≡ (err e, empty))
    × (error_handler e ≡ told (λ raw. raw) (some too_loud))
unfolding read_audio_upload validate_struct find_by_id_for_user ◌==◌
outage_told_example =
    outage_told deps session (asked_for (text "m1")) empty empty empty (1 ∷ 2 ∷ [], text "a.wav")
      ceiling_fan (1 ∷ 2 ∷ [], text "multipart/form-data") (some too_loud)
      (record {
        accepted = refl;
        valid = refl;
        found = refl;
        written = refl;
        addressed = refl;
        answered = refl;
      })
      (λ e. omega arith)

abbrev left_behind : Memory
left_behind = (Session.delete redis (text "t1") opened).1

signed_out_everywhere_example :
    In logout_route.path open_paths
    ⊎ ((serve logout_route (asked_for (text "m1")) left_behind).0
        ≡ (401, inr (record { error = text "unauthorized"; fields = [] })))
unfolding new_auth bearer_token cut equal_fold trim_space verify logout User.logout Session.delete
    find_user_id ascii_lower is_space Session.create Session.session_key new_app setup ◌==◌
signed_out_everywhere_example =
    signed_out_everywhere deps redis_laws (asked_for (text "m1")) (asked_for (text "m1")) opened
      left_behind (json 204 Request.empty) refl refl logout_route logout_listed

body_ids_ignored_example :
    ((r : CreateMachineRequest)
      → parser.create_machine (text "u1") ≡ some r
      → parser.create_machine (text "u2") ≡ some (record r { user_id = text "u2" })
      → create_machine {fl = numbers} parser
          (route_config deps).machines
          session
          (record (asked_for (text "m1")) { body = text "u2" })
          empty
        ≡ create_machine parser (route_config deps).machines session (asked_for (text "m1")) empty)
    × ((r : UpdateMachineRequest)
        → parser.update_machine (text "u1") ≡ some r
        → parser.update_machine (text "u2")
          ≡ some (record r { user_id = text "u2"; machine_id = text "u2" })
        → update_machine {fl = numbers} parser
            (route_config deps).machines
            session
            (record (asked_for (text "m1")) { body = text "u2" })
            empty
          ≡ update_machine parser
              (route_config deps).machines
              session
              (asked_for (text "m1"))
              empty)
    × ((r : UpdateUserRequest)
        → parser.update_user (text "u1") ≡ some r
        → parser.update_user (text "u2") ≡ some (record r { user_id = text "u2" })
        → update_user {fl = numbers} parser
            (user_use_case deps)
            session
            (record (asked_for (text "m1")) { body = text "u2" })
            empty
          ≡ update_user parser (user_use_case deps) session (asked_for (text "m1")) empty)
    × ((r : AdvisoryMessageRequest)
        → parser.advisory_message (text "u1") ≡ some r
        → parser.advisory_message (text "u2")
          ≡ some
              (record r { user_id = text "u2"; machine_id = text "u2"; inspection_id = text "u2" })
        → send_message parser
            (route_config deps).advisory
            session
            (record (asked_for (text "m1")) { body = text "u2" })
            empty
          ≡ send_message parser (route_config deps).advisory session (asked_for (text "m1")) empty)
body_ids_ignored_example =
    body_ids_ignored parser session (asked_for (text "m1")) (text "u2") (text "u2") (text "u2")
      (text "u2") empty (user_use_case deps) (route_config deps).machines
      (route_config deps).advisory

foreign_machine_not_found_example :
    (get_machine parser (route_config deps).machines session (asked_for (text "m2")) empty ≡ unseen)
    × (delete_machine parser (route_config deps).machines session (asked_for (text "m2")) empty
        ≡ unseen)
    × (list_baselines (route_config deps).baselines session (asked_for (text "m2")) empty ≡ unseen)
    × (list_inspections (route_config deps).inspections session (asked_for (text "m2")) empty
        ≡ unseen)
    × ((r : UpdateMachineRequest)
        → parser.update_machine (text "u1") ≡ some r
        → validate_struct (
            (validator deps).update_machine
              (trimmed_update (record r { user_id = text "u1"; machine_id = text "m2" })))
          ≡ none
        → update_machine parser (route_config deps).machines session (asked_for (text "m2")) empty
          ≡ unseen)
    × ((r : AdvisoryMessageRequest)
        → parser.advisory_message (text "u1") ≡ some r
        → validate_struct (
            (validator deps).advisory_message
              (record r { user_id = text "u1"; machine_id = text "m2"; inspection_id = text "i1" }))
          ≡ none
        → send_message parser (route_config deps).advisory session (asked_for (text "m2")) empty
          ≡ unseen)
    × ((upload : List ℕ × Text)
        → read_audio_upload (asked_for (text "m2")).form_file ≡ ok upload
        → validate_struct
            ((validator deps).audio (audio_request session (asked_for (text "m2")) upload))
          ≡ none
        → (calibrate (route_config deps).baselines session (asked_for (text "m2")) empty ≡ unseen)
          × (inspect (route_config deps).inspections session (asked_for (text "m2")) empty
              ≡ unseen))
unfolding find_by_id_for_user is ◌==◌
foreign_machine_not_found_example =
    foreign_machine_not_found deps session (asked_for (text "m2")) empty empty
      (sentinel record_not_found) refl refl

found_same :
    (id : Text) (w w' : Memory) (row : User)
    → Path (Result User × Memory) (ok (record operator { id = id }), w) (ok row, w')
    → row.id ≡ id
found_same id w w' row h =
    let same : record operator { id = id } ≡ row = cc in sym (ap (λ u. u.id) same)

users_frame : UserFrame redis_laws (user_use_case deps)
unfolding Base.find_by_id Base.update
users_frame = record {
  found_id = found_same;
  updated_id = λ given row columns w w' h. let same : given ≡ row = cc in sym (ap (λ u. u.id) same);
  find_keeps = λ id index w. refl;
  update_keeps = λ given columns index w. refl;
  generate_keeps = λ password index w. refl;
}

abbrev changed_response : Response numbers
changed_response = json 200 (Request.user (user_to_response operator))

abbrev changed : Memory
changed =
    (update_user {fl = numbers} parser (user_use_case deps) session (asked_for (text "m1"))
      opened).1

password_change_signs_out_example :
    In logout_route.path open_paths
    ⊎ ((serve logout_route (asked_for (text "m1")) changed).0
        ≡ (401, inr (record { error = text "unauthorized"; fields = [] })))
unfolding new_app setup guest_routes auth_routes update_user User.update Base.find_by_id Base.update
    validate_struct Session.create Session.delete_all_for_user bearer_token cut equal_fold
    trim_space is_space ascii_lower Session.session_key ◌==◌
password_change_signs_out_example =
    password_change_signs_out deps redis_laws users_frame session (asked_for (text "m1"))
      (asked_for (text "m1"))
      (record { user_id = text "u1"; name = some (text "Ana"); password = some (text "baru1234") })
      (text "baru1234") (text "t1") opened changed changed_response refl refl
      (create_indexed redis redis_laws (text "u1") (text "t1") 100 empty opened refl) refl refl
      logout_route logout_listed
