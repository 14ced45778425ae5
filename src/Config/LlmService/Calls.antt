-- ===== src/Config/LlmService/Calls.antt =====
-- internal/config/llmservice.go: the call of the model's server.
use Prim.Native.Nat.{◌*◌}
use mathlib.Core.Option
use audiax_backend.Common.{ℕ, Bool, false, List, [], ◌∷◌, ◌++◌}
use audiax_backend.Common.Text.{Text, text}
use audiax_backend.Constants.{ollama_chat_path, advisory_num_predict}
use audiax_backend.Errors.{wrap}
use audiax_backend.Exec.{Result, Exec, lift, on_error, reject_if, total, ◌>>=◌, ◌>>◌}
use audiax_backend.Usecase.Ports.{LlmProvider}
use audiax_backend.Config.HttpClient.{HttpClient, read_reply}
use audiax_backend.Config.LlmService.{completed}

pub record OllamaMessage : Type 0 where
  pub role : Text
  pub content : Text

pub record OllamaOptions : Type 0 where
  pub temperature : ℕ
  pub top_k : ℕ
  pub top_p : ℕ
  pub seed : ℕ
  pub num_predict : ℕ

pub record OllamaChatRequest : Type 0 where
  pub model : Text
  pub messages : List OllamaMessage
  pub stream : Bool
  pub format : Text
  pub options : OllamaOptions

-- encoding/json at the types that are written and read
pub record OllamaCodec : Type 0 where
  pub marshal_request : OllamaChatRequest → Result (List ℕ)
  pub decode_content : Text → Result Text

abbrev pub chat_request : Text → Text → OllamaChatRequest
chat_request model prompt = record {
  model = model;
  messages = record { role = text "user"; content = prompt } ∷ [];
  stream = false;
  format = text "json";
  options = record {
    temperature = 0;
    top_k = 1;
    top_p = 1;
    seed = 42;
    num_predict = advisory_num_predict;
  };
}

module _ {W : Type 0} (codec : OllamaCodec) (client : HttpClient W) (base_url model : Text) where
  unfoldable pub complete : Text → Exec W Text
  complete prompt = do
    body ←
        on_error (wrap (text "marshal ollama request: "))
          (lift (codec.marshal_request (chat_request model prompt)))
    on_error (wrap (text "build ollama request: "))
        (reject_if (client.new_request (base_url ++ ollama_chat_path)))
    reply ← total (
        client.send (record {
          url = base_url ++ ollama_chat_path;
          headers = (text "Content-Type", text "application/json") ∷ [];
          body = body;
        }))
    lift (completed (Option.map (read_reply (8 * 1024) (λ raw. []) codec.decode_content) reply))

  -- what the use case sees of it
  abbrev pub llm_service : LlmProvider W
  llm_service = record { complete = complete }
