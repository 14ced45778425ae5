-- ===== src/Usecase/Machine/Columns.antt =====
-- What an update of a machine writes and answers.
use audiax_backend.Common.{
  ◌≡◌, refl, ◌≢◌, ◌↔◌, ◌⊎◌, inl, inr, Option, none, some, List, [], ◌∷◌, In, In-append,
  In-append_left, In-append_right, ap,
}
use audiax_backend.Common.Text.{Text, text, trim_space}
use audiax_backend.Exec.{ok}
use audiax_backend.Entity.{Machine}
use audiax_backend.Model.{UpdateMachineRequest, MachineResponse, machine_to_response}
use audiax_backend.Usecase.Validation.{validate_struct}
use audiax_backend.Usecase.Machine.{
  MachineUseCase, trimmed_update, trim_optional, column, update_columns, assigned,
  find_owned_machine, write, update,
}

-- The pair is a column that the request names, with the value that it gives less the white space around
-- it.
abbrev pub Requests : UpdateMachineRequest → Text × Text → Type 0
Requests request (name, value) =
    (given : Text) × (value ≡ trim_space given)
    × (((name ≡ text "label") × (request.label ≡ some given))
        ⊎ (((name ≡ text "location") × (request.location ≡ some given))
            ⊎ ((name ≡ text "description") × (request.description ≡ some given))))

-- An answer has the requested values, and those of the row where nothing was requested.
pub record IsAnswer (request : UpdateMachineRequest) (row : Machine) (response : MachineResponse)
    : Type 0 where
  pub same_id : response.id ≡ row.id
  pub new_label : (given : Text) → request.label ≡ some given → response.label ≡ trim_space given
  pub old_label : request.label ≡ none → response.label ≡ row.label
  pub new_location :
      (given : Text) → request.location ≡ some given → response.location ≡ some (trim_space given)
  pub old_location : request.location ≡ none → response.location ≡ row.location
  pub new_description :
      (given : Text)
      → request.description ≡ some given
      → response.description ≡ some (trim_space given)
  pub old_description : request.description ≡ none → response.description ≡ row.description

assigned-IsAnswer :
    (request : UpdateMachineRequest) (row : Machine)
    → IsAnswer request row (machine_to_response (assigned (trimmed_update request) row))
assigned-IsAnswer request row = record {
  same_id = refl;
  new_label = λ given h. rw h refl;
  old_label = λ h. rw h refl;
  new_location = λ given h. rw h refl;
  old_location = λ h. rw h refl;
  new_description = λ given h. rw h refl;
  old_description = λ h. rw h refl;
}

-- One optional field of the request as a column.
named_column :
    (column_name name value : Text) (o : Option Text)
    → In (name, value) (column column_name (trim_optional o))
    → (given : Text) × (value ≡ trim_space given) × (name ≡ column_name) × (o ≡ some given)
named_column column_name name value none i = absurd i
named_column column_name name value (some given) (inl e) =
    (given, ap (λ p. p.1) e, ap (λ p. p.0) e, refl)
named_column column_name name value (some given) (inr i) = absurd i

column_named :
    (column_name given : Text) (o : Option Text)
    → o ≡ some given
    → In (column_name, trim_space given) (column column_name (trim_optional o))
column_named column_name given o h = rw h (inl refl)

module _ (request : UpdateMachineRequest) where
  columns_sound :
      (name value : Text)
      → In (name, value) (update_columns (trimmed_update request))
      → Requests request (name, value)
  unfolding update_columns
  columns_sound name value i = elim (In-append _ _ _ i) [
    | inl l ↦
        let (given, v, n, o) = named_column _ name value request.label l in (given, v, inl (n, o))
    | inr rest ↦ elim (In-append _ _ _ rest) [
      | inl l ↦
          let (given, v, n, o) = named_column _ name value request.location l in
          (given, v, inr (inl (n, o)))
      | inr l ↦
          let (given, v, n, o) = named_column _ name value request.description l in
          (given, v, inr (inr (n, o)))
    ]
  ]

  columns_complete :
      (name value : Text)
      → Requests request (name, value)
      → In (name, value) (update_columns (trimmed_update request))
  unfolding update_columns
  columns_complete name value (given, v, inl (n, o)) =
      rw (n, v) (In-append_left _ _ _ (column_named _ given request.label o))
  columns_complete name value (given, v, inr (inl (n, o))) =
      rw (n, v)
        (In-append_right _ _ _ (In-append_left _ _ _ (column_named _ given request.location o)))
  columns_complete name value (given, v, inr (inr (n, o))) =
      rw (n, v)
        (In-append_right _ (column (text "label") (trim_optional request.label)) _ (
          In-append_right _ (column (text "location") (trim_optional request.location)) _
            (column_named _ given request.description o)))

module _ {W : Type 0} (uc : MachineUseCase W) (request : UpdateMachineRequest) (w : W)
    (machine : Machine) (w' : W) where
  -- A valid update of an owned machine has a list of columns, which holds exactly the columns that the
  -- request names, with the given values less the white space around them. If it is empty, nothing is
  -- written and the answer is the row. If it is not and its one write succeeds, the answer has the
  -- requested values and those of the written row where nothing was requested, and no more is done.
  pub update_writes_requested :
      validate_struct (uc.validate_update (trimmed_update request)) ≡ none
      → uc.machines.find_by_id_for_user request.machine_id request.user_id w ≡ (ok machine, w')
      → (columns : List (Text × Text)) × ((name value : Text)
          → In (name, value) columns ↔ Requests request (name, value))
        × (columns ≡ [] → update uc request w ≡ (ok (machine_to_response machine), w'))
        × ((row : Machine) (w'' : W)
            → columns ≢ []
            → uc.machines.update machine columns w' ≡ (ok row, w'')
            → (response : MachineResponse) × (update uc request w ≡ (ok response, w''))
              × IsAnswer request row response)
  unfolding update find_owned_machine
  update_writes_requested valid owned = (
    update_columns (trimmed_update request),
    λ name value. (columns_sound request name value, columns_complete request name value),
    λ none_named. rw (valid, owned, none_named) refl,
    λ row w'' named done. (
      machine_to_response (assigned (trimmed_update request) row),
      rw (valid, owned) (write_lem (update_columns (trimmed_update request)) row w'' named done),
      assigned-IsAnswer request row,
    ),
  )
    where
      write_lem :
          (columns : List (Text × Text)) (row : Machine) (w'' : W)
          → columns ≢ []
          → uc.machines.update machine columns w' ≡ (ok row, w'')
          → write uc (trimmed_update request) machine columns w'
            ≡ (ok (machine_to_response (assigned (trimmed_update request) row)), w'')
      write_lem [] row w'' named done = absurd (named refl)
      write_lem (c ∷ columns) row w'' named done = rw done refl
