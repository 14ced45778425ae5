-- ===== src/Repository/Machines/Rows.antt =====
-- Which machine the use case gets from the table.
use audiax_backend.Common.{
  and_true, ◌≡◌, refl, sym, ap, ◌∙◌, ◌≢◌, true, false, Option, none, some, In, List, In-map-source,
}
use audiax_backend.Common.Text.{Text, text, ◌==◌}
use audiax_backend.Common.Text.Search.{eq_iff}
use audiax_backend.Errors.{Error, wrap}
use audiax_backend.Exec.{ok, pure, on_error, reject_if, on_error_ok, continue_ok, ◌>>=◌}
use audiax_backend.Entity.{Time, Machine}
use audiax_backend.Model.{
  MachineResponse, UpdateMachineRequest, machine_to_response, machines_to_responses,
}
use audiax_backend.Usecase.Validation.{validate_struct}
use audiax_backend.Usecase.Machine.{
  MachineUseCase, find_owned_machine, get, list, update, delete, write, update_columns,
  trimmed_update,
}
use audiax_backend.Usecase.Ports.{not_found_or}
use audiax_backend.Repository.Gorm.{Table}
use audiax_backend.Repository.Gorm.Laws.{TableLaws, selects}
use audiax_backend.Repository.Schemas.{machine_schema, machine_text, not_deleted}
use audiax_backend.Repository.Machines.{
  machine_repository, by_id_for_user, of_user, find_by_id_for_user, list_for_user,
}
use audiax_backend.Repository.Base

live_none : (t : Option Time) → not_deleted t ≡ true → t ≡ none
live_none none h = refl
live_none (some t) h = cc

seen_or_dead : (t : Option Time) → t ≡ none → not_deleted t ≢ false
seen_or_dead none live dead = cc
seen_or_dead (some t) live dead = cc

id_column : (row : Machine) → machine_text (text "id") row ≡ row.id
unfolding machine_text ◌==◌
id_column row = refl

owner_column : (row : Machine) → machine_text (text "user_id") row ≡ row.user_id
unfolding machine_text ◌==◌
owner_column row = refl

pub selected_row :
    (id user_id : Text) (row : Machine)
    → selects machine_schema (by_id_for_user id user_id) row ≡ true
    → (row.deleted_at ≡ none) × (row.id ≡ id) × (row.user_id ≡ user_id)
selected_row id user_id row h =
    let (live, h₁) = and_true _ _ h in
    let (same, h₂) = and_true _ _ h₁ in
    let (owned, _) = and_true _ _ h₂ in
    (
      live_none row.deleted_at live,
      sym (id_column row) ∙ (eq_iff _ _).0 same,
      sym (owner_column row) ∙ (eq_iff _ _).0 owned,
    )

-- A check that lets a request through leaves the world as it is.
pub passed_check : {W : Type 0} (o : Option Error) (w w' : W) → reject_if o w ≡ (ok tt, w') → w ≡ w'
passed_check none w w' h = cc
passed_check (some e) w w' h = cc

module _ {W : Type 0} {rows : W → List Machine} {db : Table Machine W}
    (laws : TableLaws machine_schema rows db) (uc : MachineUseCase W) where
  abbrev over_table : MachineUseCase W
  over_table = record uc { machines = machine_repository db }

  -- The row that the gate of every operation lets through.
  found_row :
      (machine_id user_id : Text) (w w' : W) (row : Machine)
      → find_owned_machine over_table machine_id user_id w ≡ (ok row, w')
      → In row (rows w)
        × ((row.deleted_at ≡ none) × (row.id ≡ machine_id) × (row.user_id ≡ user_id))
  unfolding find_owned_machine find_by_id_for_user
  found_row machine_id user_id w w' row h =
      let (here, selected) = laws.take_row (by_id_for_user machine_id user_id) w w' row (
        on_error_ok (not_found_or (text "find machine by id: "))
          (db.take (by_id_for_user machine_id user_id)) w w' h) in
      (here, selected_row machine_id user_id row selected)

  -- A listing answers with rows of the user that are not deleted.
  listed_row :
      (user_id : Text) (w w' : W) (responses : List MachineResponse) (response : MachineResponse)
      → list over_table user_id w ≡ (ok responses, w')
      → In response responses
      → (row : Machine) × In row (rows w)
        × (row.deleted_at ≡ none)
        × (response ≡ machine_to_response row)
  unfolding list list_for_user
  listed_row user_id w w' responses response h i =
      let (found, v, all, answered) =
        continue_ok (on_error (wrap (text "list machines: ")) (list_for_user db user_id))
          (λ machines. pure (machines_to_responses machines)) w w' h in
      let same : machines_to_responses found ≡ responses = cc in
      let (row, there, shown) = In-map-source machine_to_response response found (rw same i) in
      let (here, selected) =
        laws.find_rows (of_user user_id) w v found
          (on_error_ok (wrap (text "list machines: ")) (db.find (of_user user_id)) w v all) row
          there in
      (row, here, live_none row.deleted_at (and_true _ _ selected).0, shown)

  -- A row that a deletion left under the id that it deleted is marked as deleted.
  left_row :
      (user_id machine_id : Text) (w w' : W)
      → delete over_table user_id machine_id w ≡ (ok tt, w')
      → (row : Machine) → In row (rows w')
      → row.id ≡ machine_id
      → row.deleted_at ≢ none
  unfolding delete Base.delete
  left_row user_id machine_id w w' h row there named live =
      let (gone, v, found, done) =
        continue_ok (find_owned_machine over_table machine_id user_id)
          (λ machine. on_error (wrap (text "delete machine: ")) (db.delete machine)) w w' h in
      let (_, (_, same, _)) = found_row machine_id user_id w v gone found in
      let dead =
        laws.delete_row gone v w'
          (on_error_ok (wrap (text "delete machine: ")) (db.delete gone) v w' done) row there
          (named ∙ sym same) in
      seen_or_dead row.deleted_at live dead

  -- In the world that a deletion which succeeded leaves, no user finds the machine of that id: the gate
  -- that get, update and delete share does not let it through.
  not_found_again :
      (user_id machine_id : Text) (w w' : W)
      → delete over_table user_id machine_id w ≡ (ok tt, w')
      → (any_user : Text) (w'' : W) (row : Machine)
      → find_owned_machine over_table machine_id any_user w' ≢ (ok row, w'')
  not_found_again user_id machine_id w w' h any_user w'' row again =
      let (there, (live, named, _)) = found_row machine_id any_user w' w'' row again in
      left_row user_id machine_id w w' h row there named live

  -- In the world that a deletion which succeeded leaves, no user gets, updates or deletes a machine of
  -- that id, and no listing of any user holds one.
  pub deleted_gone :
      (user_id machine_id : Text) (w w' : W)
      → delete over_table user_id machine_id w ≡ (ok tt, w')
      → ((any_user : Text) (w'' : W) (response : MachineResponse)
          → get over_table any_user machine_id w' ≢ (ok response, w''))
        × ((request : UpdateMachineRequest) (w'' : W) (response : MachineResponse)
            → request.machine_id ≡ machine_id
            → update over_table request w' ≢ (ok response, w''))
        × ((any_user : Text) (w'' : W) → delete over_table any_user machine_id w' ≢ (ok tt, w''))
        × ((any_user : Text) (w'' : W) (responses : List MachineResponse)
              (response : MachineResponse)
            → list over_table any_user w' ≡ (ok responses, w'')
            → In response responses
            → response.id ≢ machine_id)
  unfolding get update delete
  deleted_gone user_id machine_id w w' h = (
    λ any_user w'' response again.
        let (row, v, found, _) =
          continue_ok (find_owned_machine over_table machine_id any_user)
            (λ machine. pure (machine_to_response machine)) w' w'' again in
        not_found_again user_id machine_id w w' h any_user v row found,
    λ request w'' response named again.
        let (_, v₁, checked, later) =
          continue_ok (reject_if (validate_struct (uc.validate_update (trimmed_update request))))
            (λ _. (do
              machine ← find_owned_machine over_table request.machine_id request.user_id
              write over_table (trimmed_update request) machine
                  (update_columns (trimmed_update request))))
            w' w'' again in
        let (row, v₂, found, _) =
          continue_ok (find_owned_machine over_table request.machine_id request.user_id)
            (λ machine.
              write over_table (trimmed_update request) machine
                (update_columns (trimmed_update request)))
            v₁ w'' later in
        not_found_again user_id machine_id w w' h request.user_id v₂ row (
          rw
            (
              ← named,
              passed_check (validate_struct (uc.validate_update (trimmed_update request))) w' v₁
                  checked,
            )
            found),
    λ any_user w'' again.
        let (row, v, found, _) =
          continue_ok (find_owned_machine over_table machine_id any_user)
            (λ machine. on_error (wrap (text "delete machine: ")) (Base.delete db machine)) w' w''
            again in
        not_found_again user_id machine_id w w' h any_user v row found,
    λ any_user w'' responses response listed i named.
        let (row, there, live, shown) = listed_row any_user w' w'' responses response listed i in
        left_row user_id machine_id w w' h row there
          (sym (ap (λ (r : MachineResponse). r.id) shown) ∙ named) live,
  )
