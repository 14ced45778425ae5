-- ===== src/Config/LlmService.antt =====
-- internal/config/llmservice.go: the answer of the model's server.
pub mod Calls
use audiax_backend.Common.{not, Option, none, some, ◌++◌, nat_eq, if◌then◌else◌}
use audiax_backend.Common.Text.{Text, text}
use audiax_backend.Common.Text.Decimal.{itoa}
use audiax_backend.Errors.{sentinel, unavailable, wrap}
use audiax_backend.Exec.{Result, err, map_error}
use audiax_backend.Config.AiService.{Response}

-- `Complete` behind the building of the request; the decoded value is `message.content`
unfoldable pub completed : Option (Response Text) → Result Text
completed none = err (wrap (text "call ollama") (sentinel unavailable))
completed (some resp) =
    if not (nat_eq resp.status_code 200)
    then err (
        wrap (text "ollama returned " ++ (itoa resp.status_code ++ (text ": " ++ resp.raw)))
          (sentinel unavailable))
    else map_error (wrap (text "decode ollama response: ")) resp.decoded
