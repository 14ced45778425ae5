-- ===== src/Config/AiService.antt =====
-- internal/config/aiservice.go: the answer of the AI service.
pub mod Calls
pub mod Client
use audiax_backend.Common.{
  ℕ, Bool, true, false, not, ◌&&◌, Option, none, some, List, [], ◌∷◌, ◌++◌, leb, nat_eq,
  if◌then◌else◌,
}
use audiax_backend.Common.Text.{Text, text, is_empty}
use audiax_backend.Common.Text.Decimal.{itoa}
use audiax_backend.Errors.{Error, sentinel, rejected, opaque, unavailable, wrap}
use audiax_backend.Exec.{Result, ok, err, map_error, Exec, pure, total, ◌>>=◌}

-- An answer of the service: the status, the text of the body (at most 8 kB of it for an error), and
-- what the two decoders make of the body: the field `detail`, empty if it is missing or
-- the body is not JSON, and the value that the caller asks for.
pub record Response (A : Type 0) : Type 0 where
  pub status_code : ℕ
  pub raw : Text
  pub detail : Text
  pub decoded : Result A

-- `errorFor`
unfoldable pub error_for : {A : Type 0} → Text → Response A → Error
error_for path resp =
    if nat_eq resp.status_code 400 && not (is_empty resp.detail)
    then rejected resp.detail
    else if leb 500 resp.status_code
    then wrap (path ++ (text " returned " ++ (itoa resp.status_code ++ (text ": " ++ resp.detail))))
        (sentinel unavailable)
    else opaque (
        text "ai service "
        ++ (path ++ (text " returned " ++ (itoa resp.status_code ++ (text ": " ++ resp.raw)))))

-- `post` behind the building of the request; `none` is a failure of the transport
unfoldable pub received : {A : Type 0} → Text → Option (Response A) → Result A
received path none = err (wrap (text "call " ++ path) (sentinel unavailable))
received path (some resp) =
    if not (nat_eq resp.status_code 200)
    then err (error_for path resp)
    else map_error (wrap (text "decode ai response from " ++ (path ++ text ": "))) resp.decoded
