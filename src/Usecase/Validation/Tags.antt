-- ===== src/Usecase/Validation/Tags.antt =====
-- The validation tags of internal/model, and internal/config/validator.go. The validator library walks the
-- fields of a struct: what a struct gives it is the list of its fields with their rules.
use audiax_backend.Common.{
  ℕ, ◌≡◌, ◌↔◌, Bool, true, false, not, ◌||◌, Option, none, some, List, [], ◌∷◌, leb, ltb, length,
  any, all, if◌then◌else◌,
}
use audiax_backend.Common.Text.{Text, text, ◌==◌, is_empty, split}
use audiax_backend.Model.{
  RegisterUserRequest, LoginUserRequest, UpdateUserRequest, CreateMachineRequest,
  UpdateMachineRequest, AudioRequest, AdvisoryContext, AdvisoryMessageRequest,
}
use audiax_backend.Usecase.Validation.{Outcome, valid}

pub data Rule : Type 0 where
  required omitempty email : Rule
  min max gt : ℕ → Rule
  oneof : List Text → Rule

-- A field by the name that errors report, its value (`none` for a nil pointer) and its tag.
pub record Field : Type 0 where
  pub name : Text
  pub value : Option Text
  pub rules : List Rule

-- the function of RegisterTagNameFunc, at the json tag and the name of a field
unfoldable pub tag_name : Text → Text → Text
tag_name json name = before_comma (split json b',')
  where
    before_comma : List Text → Text
    before_comma [] = name
    before_comma (tag ∷ rest) = if tag == text "-" || is_empty tag then name else tag

abbrev pub given : Text → Text → Text → List Rule → Field
given json name value rules = record {
  name = tag_name json name;
  value = some value;
  rules = rules;
}

abbrev pub pointer : Text → Text → Option Text → List Rule → Field
pointer json name value rules = record { name = tag_name json name; value = value; rules = rules }

abbrev pub register_fields : RegisterUserRequest → List Field
register_fields r =
    given (text "email") (text "Email") r.email (required ∷ email ∷ max 254 ∷ [])
    ∷ given (text "name") (text "Name") r.name (required ∷ min 1 ∷ max 100 ∷ [])
    ∷ given (text "password") (text "Password") r.password (required ∷ min 8 ∷ max 72 ∷ [])
    ∷ []

abbrev pub login_fields : LoginUserRequest → List Field
login_fields r =
    given (text "email") (text "Email") r.email (required ∷ email ∷ max 254 ∷ [])
    ∷ given (text "password") (text "Password") r.password (required ∷ max 72 ∷ [])
    ∷ []

abbrev pub update_user_fields : UpdateUserRequest → List Field
update_user_fields r =
    given (text "-") (text "UserID") r.user_id (required ∷ [])
    ∷ pointer (text "name,omitempty") (text "Name") r.name (omitempty ∷ min 1 ∷ max 100 ∷ [])
    ∷ pointer (text "password,omitempty") (text "Password") r.password
        (omitempty ∷ min 8 ∷ max 72 ∷ [])
    ∷ []

abbrev pub create_machine_fields : CreateMachineRequest → List Field
create_machine_fields r =
    given (text "-") (text "UserID") r.user_id (required ∷ [])
    ∷ given (text "label") (text "Label") r.label (required ∷ min 1 ∷ max 100 ∷ [])
    ∷ pointer (text "location,omitempty") (text "Location") r.location (omitempty ∷ max 150 ∷ [])
    ∷ pointer (text "description,omitempty") (text "Description") r.description
        (omitempty ∷ max 2000 ∷ [])
    ∷ []

abbrev pub update_machine_fields : UpdateMachineRequest → List Field
update_machine_fields r =
    given (text "-") (text "UserID") r.user_id (required ∷ [])
    ∷ given (text "-") (text "MachineID") r.machine_id (required ∷ [])
    ∷ pointer (text "label,omitempty") (text "Label") r.label (omitempty ∷ min 1 ∷ max 100 ∷ [])
    ∷ pointer (text "location,omitempty") (text "Location") r.location (omitempty ∷ max 150 ∷ [])
    ∷ pointer (text "description,omitempty") (text "Description") r.description
        (omitempty ∷ max 2000 ∷ [])
    ∷ []

-- Calibrate and Inspect have the same fields with the same tags.
abbrev pub audio_fields : AudioRequest → List Field
audio_fields r =
    given [] (text "UserID") r.user_id (required ∷ [])
    ∷ given [] (text "MachineID") r.machine_id (required ∷ [])
    ∷ given [] (text "Filename") r.filename (required ∷ [])
    ∷ given [] (text "Audio") r.audio (required ∷ gt 0 ∷ [])
    ∷ []

abbrev pub context_fields : AdvisoryContext → List Field
context_fields c =
    given (text "drive_type") (text "DriveType") c.drive_type
      (required ∷ oneof (text "belt" ∷ text "direct-coupled" ∷ text "direct-drive" ∷ []) ∷ [])
    ∷ given (text "recency") (text "Recency") c.recency (
        required
        ∷ oneof (text "<1bln" ∷ text "1-6bln" ∷ text ">6bln" ∷ text "tidak-tahu" ∷ [])
        ∷ [])
    ∷ given (text "machine_age") (text "MachineAge") c.machine_age
        (required ∷ oneof (text "<1th" ∷ text "1-3th" ∷ text "3-5th" ∷ text ">5th" ∷ []) ∷ [])
    ∷ given (text "hours_per_day") (text "HoursPerDay") c.hours_per_day
        (required ∷ oneof (text "<4" ∷ text "4-8" ∷ text ">8" ∷ []) ∷ [])
    ∷ given (text "load_state") (text "LoadState") c.load_state
        (required ∷ oneof (text "kosong" ∷ text "bermuatan" ∷ []) ∷ [])
    ∷ []

-- The history has no `dive`, so the library does not look at its turns; `required` on the context
-- follows from that of its fields.
abbrev pub advisory_message_fields : AdvisoryMessageRequest → List Field
advisory_message_fields r =
    given [] (text "UserID") r.user_id (required ∷ [])
    ∷ given [] (text "MachineID") r.machine_id (required ∷ [])
    ∷ given [] (text "InspectionID") r.inspection_id (required ∷ [])
    ∷ given (text "user_message") (text "UserMessage") r.user_message (required ∷ [])
    ∷ context_fields r.context

-- What the library documents of the rules that the program relies on; `min` and `max` count characters,
-- `gt` on bytes counts bytes. The rule for addresses is its own.
abbrev pub rule_holds : (Text → Bool) → Rule → Text → Bool
rule_holds is_email required v = not (is_empty v)
rule_holds is_email omitempty v = true
rule_holds is_email email v = is_email v
rule_holds is_email (min n) v = leb n (length v)
rule_holds is_email (max n) v = leb (length v) n
rule_holds is_email (gt n) v = ltb n (length v)
rule_holds is_email (oneof vs) v = any (λ x. v == x) vs

-- A nil pointer satisfies a tag that begins with omitempty, and no other.
abbrev pub field_holds : (Text → Bool) → Option Text → List Rule → Bool
field_holds is_email (some v) rules = all (λ r. rule_holds is_email r v) rules
field_holds is_email none (omitempty ∷ rules) = true
field_holds is_email none _ = false

-- validate.Struct at the fields of a struct, and the rule `email`
pub record StructValidator : Type 0 where
  pub struct : List Field → Outcome
  pub is_email : Text → Bool

-- It reports nothing exactly when every field satisfies its tag.
pub record ValidatorLaws (v : StructValidator) : Type 0 where
  pub struct_valid :
      (fields : List Field)
      → (v.struct fields ≡ valid)
        ↔ (all (λ f. field_holds v.is_email f.value f.rules) fields ≡ true)
