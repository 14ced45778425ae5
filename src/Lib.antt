-- ===== src/Lib.antt =====
-- The backend of Audiax, in Go: operators record the sound of a machine, an AI service scores the
-- recording against a baseline, and an advisory conversation ("Teknisi Saku") explains the result.
-- This library models the operations of the backend as functions and proves what they promise.
--
-- Parts and files (paths from the root of the repository):
--   Constants, Entity, Model: internal/constants, internal/entity, internal/model with its converters.
--   Errors: internal/apperr, and error values with errors.Is and errors.As. `cause` is the end of a chain
--     of wrapped errors.
--   Exec: a method that returns (T, error) is a function from the world to a result and the world after.
--   Advisory: internal/advisory. Rules is Lookup over any table, Table the embedded decision_table.json,
--     Static the reply without a model, Numbers and Guard the checks on a completion, Prompt the
--     renderer of prompt_template.txt, with the scan for placeholders in Prompt.Placeholders.
--   Usecase: internal/usecase. Ports has the interfaces that the package declares, as records of functions
--     over a world W; Validation, Advisory, Machine, Baseline, Inspection and User are the files of
--     these names, one function for each method; Validation.Tags has the validation tags of internal/model
--     and internal/config/validator.go; Codec has the encodings of the standard library.
--   Repository: internal/repository. Gorm states what a repository asks of gorm as data (a query is its
--     columns, conditions, order and limit) and Gorm.Laws what it relies on; Base, Machines, Baselines,
--     Inspections and Users are the files of these names, Schemas the column tags of internal/entity.
--     Session is session.go over the commands of Redis, which Session.Redis states with laws.
--   Config: Load is internal/config/config.go over an environment; AiService, LlmService and Storage are the
--     clients, their answers in the module itself and their requests in its child Calls, over HttpClient.
--   Http: internal/delivery/http. Request is what a handler reads and writes, Upload is readAudioUpload,
--     Controllers has every handler, Routes is route/route.go, ErrorHandler is errors.go, Auth is
--     middleware/auth.go.
--   App: internal/app/app.go, from the dependencies to the routes.
--   Common: text as lists of code points with the functions of package strings that are called, lists,
--     Boolean tests, integers with the product of 64 bits.
--   Tests: the listed theorems at concrete inputs, and the expectations of the Go tests of the clients and
--     of the prompt.
--
-- How they interact: a use case validates the request, reads the machine through its repository for the
-- caller (the ownership gate), reads what else it needs, and calls the AI service, the model or the object
-- store; Advisory.Send asks the rules for a cell and then answers statically or with a completion that the
-- guard let through. Every error ends in the error handler. App fills the interfaces of the use cases with
-- the repositories and the clients, so that a theorem there speaks of a request from its route to the table.
--
-- Parameters: the tables and the transaction of gorm, net/http, mime/multipart, the validator, json, base64,
-- bcrypt, uuid, the clock, Redis, unicode.ToLower beyond ASCII, and float64 with strconv. What the theorems
-- use of them is in the records of laws (TableLaws, Frame, ValidatorLaws, FloatLaws, CodecLaws,
-- RedisLaws, Unicode).
--
-- Bounds and fuel: Itoa runs on the fuel n + 1 for the number n, which itoa_value shows to be enough; every
-- other loop is structural. Sizes and counters of the source are lengths of slices in memory, far below the
-- range of int, and are natural numbers here. An int that another program sends is an integer, and the
-- product of such is the one of 64 bits (Common.Int). A point in time is a number, 0 for the zero time.
--
-- Not modelled: log entries, deadlines, the options and the other middlewares of fiber, the connections and
-- the start-up (internal/config/database.go, redis.go, logger.go, cmd/web). Text is valid UTF-8, so that
-- positions count code points.
pub mod Common
pub mod Errors
pub mod Exec
pub mod Floats
pub mod Constants
pub mod Entity
pub mod Model
pub mod Advisory
pub mod Usecase
pub mod Repository
pub mod Config
pub mod Http
pub mod App
pub mod Tests
