-- ===== src/Config/HttpClient.antt =====
-- net/http as the clients use it: a request that is built, sent and answered. The package, the encoders
-- and the decoders are parameters.
use audiax_backend.Common.{ℕ, Option, List, take}
use audiax_backend.Common.Text.{Text}
use audiax_backend.Errors.{Error}
use audiax_backend.Exec.{Result}
use audiax_backend.Config.AiService.{Response}

-- A POST: the address, the headers and the bytes of the body.
pub record Post : Type 0 where
  pub url : Text
  pub headers : List (Text × Text)
  pub body : List ℕ

pub record Reply : Type 0 where
  pub status_code : ℕ
  pub body : Text

-- http.NewRequestWithContext, which refuses an address that does not parse, and Client.Do with the
-- timeout of the client, where `none` is a failure of the transport
pub record HttpClient (W : Type 0) : Type 0 where
  pub new_request : Text → Option Error
  pub send : Post → W → Option Reply × W

-- The reply as the callers read it: at most `limit` of the body of a failure, the field `detail` of
-- that, and the decoded body of a success.
abbrev pub read_reply : {A : Type 0} → ℕ → (Text → Text) → (Text → Result A) → Reply → Response A
read_reply limit detail_of decode reply = record {
  status_code = reply.status_code;
  raw = take limit reply.body;
  detail = detail_of (take limit reply.body);
  decoded = decode reply.body;
}
