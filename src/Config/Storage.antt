-- ===== src/Config/Storage.antt =====
-- internal/config/storage.go: the answer of the object store.
pub mod Calls
use audiax_backend.Common.{Option, none, some, ◌++◌, nat_eq, leb, if◌then◌else◌}
use audiax_backend.Common.Text.{Text, text}
use audiax_backend.Common.Text.Decimal.{itoa}
use audiax_backend.Errors.{sentinel, opaque, unavailable, wrap}
use audiax_backend.Exec.{Result, ok, err}
use audiax_backend.Config.AiService.{Response}

-- `Put` behind the building of the request
unfoldable pub stored : Text → Option (Response Unit) → Result {0} Unit
stored path none = err (wrap (text "put object " ++ path) (sentinel unavailable))
stored path (some resp) =
    if nat_eq resp.status_code 200
    then ok tt
    else if leb 500 resp.status_code
    then err (
        wrap
          (text "storage returned "
            ++ (itoa resp.status_code ++ (text " for " ++ (path ++ (text ": " ++ resp.raw)))))
          (sentinel unavailable))
    else err (
        opaque (
          text "storage returned "
          ++ (itoa resp.status_code ++ (text " for " ++ (path ++ (text ": " ++ resp.raw))))))
