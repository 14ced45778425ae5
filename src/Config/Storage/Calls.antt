-- ===== src/Config/Storage/Calls.antt =====
-- internal/config/storage.go: the upload of an object.
use Prim.Native.Nat.{◌*◌}
use mathlib.Core.Option
use audiax_backend.Common.{ℕ, List, [], ◌∷◌, ◌++◌}
use audiax_backend.Common.Text.{Text, text}
use audiax_backend.Errors.{wrap}
use audiax_backend.Exec.{ok, Exec, lift, on_error, reject_if, total, ◌>>=◌, ◌>>◌}
use audiax_backend.Usecase.Ports
use audiax_backend.Config.HttpClient.{HttpClient, read_reply}
use audiax_backend.Config.Storage.{stored}

-- the fields of ObjectStore
pub record ObjectStore (W : Type 0) : Type 0 where
  pub base_url : Text
  pub service_key : Text
  pub bucket : Text
  pub client : HttpClient W

module _ {W : Type 0} (s : ObjectStore W) where
  abbrev pub object_url : Text → Text
  object_url path = s.base_url ++ (text "/storage/v1/object/" ++ (s.bucket ++ (text "/" ++ path)))

  unfoldable pub put : Text → List ℕ → Text → Exec W Unit
  put path content content_type = do
    on_error (wrap (text "build storage request: "))
        (reject_if (s.client.new_request (object_url path)))
    reply ← total (
        s.client.send (record {
          url = object_url path;
          headers =
              (text "Authorization", text "Bearer " ++ s.service_key)
              ∷ (text "Content-Type", content_type)
              ∷ [];
          body = content;
        }))
    lift (stored path (Option.map (read_reply (4 * 1024) (λ raw. []) (λ raw. ok tt)) reply))

  -- what the use cases see of it
  abbrev pub object_store : Ports.ObjectStore W
  object_store = record { put = put }
