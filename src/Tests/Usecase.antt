-- ===== src/Tests/Usecase.antt =====
-- The theorems on internal/usecase and internal/delivery at a concrete input.
use audiax_backend.Common.{◌≡◌, refl, ◌↔◌, inl, inr, true, false, List, [], ◌∷◌, In}
use audiax_backend.Common.Text.{
  Text, text, ◌==◌, contains, ascii_lower, to_lower, index, has_prefix,
}
use audiax_backend.Common.Text.Search.{Contains}
use audiax_backend.Constants.{danger_keywords}
use audiax_backend.Errors.{sentinel, wrap, cause, conflict}
use audiax_backend.Exec.{ok}
use audiax_backend.Entity.{Machine, Inspection}
use audiax_backend.Model.{AdvisoryMessageRequest, AdvisoryMessageResponse}
use audiax_backend.Usecase.Validation.{validate_struct}
use audiax_backend.Usecase.Advisory.{AdvisoryUseCase, contains_danger_keyword, send}
use audiax_backend.Usecase.Advisory.Keywords.{contains_danger_keyword_iff}
use audiax_backend.Usecase.Advisory.Access.{Admitted, baseline_read}
use audiax_backend.Usecase.Advisory.Danger.{IsAlarm, danger-IsAlarm, danger_ignores_llm}
use audiax_backend.Usecase.Advisory.Source.{IsAnswered, send-IsAnswered}
use audiax_backend.Http.ErrorHandler.{error_handler}
use audiax_backend.Http.ErrorHandler.Table.{by_cause, error_handler-by_cause}
use audiax_backend.Repository.Gorm.{Table}
use audiax_backend.Repository.Schemas.{
  machine_schema, machine_text, inspection_schema, inspection_text,
}
use audiax_backend.Repository.Machines.{machine_repository, find_by_id_for_user}
use audiax_backend.Repository.Inspections.{inspection_repository, find_by_id_for_machine}
use audiax_backend.Tests.Tables.{fixed}
use audiax_backend.Tests.World.{
  World, numbers, ascii, good_output, ceiling_fan, last_inspection, advisory, silent_model, asking,
}

abbrev danger : AdvisoryMessageRequest
danger = asking (text "m1") (text "i1") (text "Ada ASAP!")

abbrev calm : AdvisoryMessageRequest
calm = asking (text "m1") (text "i1") (text "Aman?")

abbrev admitted : (message : Text) → Admitted advisory (asking (text "m1") (text "i1") message) []
unfolding ◌==◌ validate_struct
admitted message = record {
  valid = refl;
  machine = ceiling_fan;
  after_machine = [];
  owned = refl;
  inspection = last_inspection;
  after_inspection = [];
  found = refl;
}

contains_danger_keyword_iff_example :
    (contains_danger_keyword ascii (text "Ada ASAP!") ≡ true)
    ↔ ((k : Text) × In k danger_keywords × Contains (to_lower ascii (text "Ada ASAP!")) k)
contains_danger_keyword_iff_example = contains_danger_keyword_iff ascii (text "Ada ASAP!")

has_danger : contains_danger_keyword ascii (text "Ada ASAP!") ≡ true
unfolding contains_danger_keyword contains index to_lower has_prefix ascii_lower
has_danger = refl

has_no_danger : contains_danger_keyword ascii (text "Aman?") ≡ false
unfolding contains_danger_keyword contains index to_lower has_prefix ascii_lower
has_no_danger = refl

danger-IsAlarm_example :
    (r : AdvisoryMessageResponse) × (send advisory danger []
      ≡ (ok r, (baseline_read advisory danger [] (admitted (text "Ada ASAP!"))).1))
    × IsAlarm r
danger-IsAlarm_example = danger-IsAlarm advisory danger [] (admitted (text "Ada ASAP!")) has_danger

danger_ignores_llm_example :
    send (record advisory { llm = silent_model; decode = λ raw. ok good_output }) danger []
    ≡ send advisory danger []
danger_ignores_llm_example =
    danger_ignores_llm advisory danger silent_model (λ raw. ok good_output) [] has_danger

send-IsAnswered_example :
    (r : AdvisoryMessageResponse) × IsAnswered advisory calm [] (admitted (text "Aman?")) r
unfolding admitted
send-IsAnswered_example =
    send-IsAnswered advisory calm [] (admitted (text "Aman?")) has_no_danger (inr (inl refl))

-- The tables hold a machine of another user, the machine of the request and its inspection.
abbrev fans : List Machine
fans = record ceiling_fan { id = text "m0"; user_id = text "u2" } ∷ ceiling_fan ∷ []

abbrev stored_machines : Table Machine World
stored_machines = fixed machine_schema fans

abbrev stored_inspections : Table (Inspection numbers) World
stored_inspections = fixed inspection_schema (last_inspection ∷ [])

abbrev stored_advisory : AdvisoryUseCase numbers World
stored_advisory = record advisory {
  machines = machine_repository stored_machines;
  inspections = inspection_repository stored_inspections;
}

abbrev stored_admitted : Admitted stored_advisory danger []
unfolding ◌==◌ validate_struct find_by_id_for_user find_by_id_for_machine machine_text
    inspection_text
stored_admitted = record {
  valid = refl;
  machine = ceiling_fan;
  after_machine = [];
  owned = refl;
  inspection = last_inspection;
  after_inspection = [];
  found = refl;
}

abbrev after_stored : World
after_stored = (baseline_read stored_advisory danger [] stored_admitted).1

error_handler-by_cause_example :
    error_handler (wrap (text "update machine: ") (sentinel conflict))
    ≡ by_cause (cause (wrap (text "update machine: ") (sentinel conflict)))
error_handler-by_cause_example =
    error_handler-by_cause (wrap (text "update machine: ") (sentinel conflict))

-- An everyday word holds the keyword "api".
everyday_word_is_danger : contains_danger_keyword ascii (text "Aman, tapi berdebu.") ≡ true
unfolding contains_danger_keyword contains index to_lower has_prefix ascii_lower
everyday_word_is_danger = refl
