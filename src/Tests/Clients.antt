-- ===== src/Tests/Clients.antt =====
-- The requests of the clients and their answers, as internal/config/storage_test.go, llmservice_test.go
-- and aiservice_test.go expect them.
use audiax_backend.Common.{ℕ, if◌then◌else◌, ◌≡◌, refl, Option, none, some, List, [], ◌∷◌, ◌++◌}
use audiax_backend.Common.Text.{Text, text}
use audiax_backend.Common.Text.Decimal.{itoa}
use audiax_backend.Errors.{unavailable, rejected, is}
use audiax_backend.Exec.{Result, ok, err}
use audiax_backend.Config.HttpClient.{HttpClient, Post, Reply}
use audiax_backend.Config.Storage.{stored}
use audiax_backend.Config.Storage.Calls.{ObjectStore, put}
use audiax_backend.Config.LlmService.{completed}
use audiax_backend.Config.LlmService.Calls.{OllamaCodec, OllamaMessage, complete}
use audiax_backend.Config.AiService.{received, error_for}
use audiax_backend.Config.AiService.Calls.{AiCodec, multipart_body, post, calibrate, inspect}
use audiax_backend.Tests.World.{numbers}
use audiax_backend.Tests.Services.{ai_baseline, normal_card}

-- A server that keeps the requests and answers all of them alike.
abbrev answering : Option Reply → HttpClient (List Post)
answering reply = record { new_request = λ url. none; send = λ request w. (reply, request ∷ w) }

abbrev with_status : Reply → ObjectStore (List Post)
with_status reply = record {
  base_url = text "http://s";
  service_key = text "service-key";
  bucket = text "audiax-audio";
  client = answering (some reply);
}

-- An authenticated upload to the bucket.
put_sends :
    put
      (with_status (record { status_code = 200; body = [] }))
      (text "calibrations/m1/b1.wav")
      (text "wav-bytes")
      (text "audio/wav")
      []
    ≡ (
      ok tt,
      record {
        url = text "http://s/storage/v1/object/audiax-audio/calibrations/m1/b1.wav";
        headers =
            (text "Authorization", text "Bearer service-key")
            ∷ (text "Content-Type", text "audio/wav")
            ∷ [];
        body = text "wav-bytes";
      }
          ∷ [],
    )
unfolding put stored
put_sends = refl

abbrev fails_as : {A : Type 0} → Result A → (Text → Text)
fails_as (ok a) = λ t. t
fails_as (err e) = λ t. if◌then◌else◌ (is e unavailable) (text "unavailable") (text "other")

-- 502 is the failure of the storage, 409 is an error that is no unavailability.
put_bad_gateway :
    fails_as
      (put (with_status (record { status_code = 502; body = [] })) (text "x.wav") [] [] []).0
      []
    ≡ text "unavailable"
unfolding put stored is
put_bad_gateway = refl

put_conflict :
    fails_as
      (put (with_status (record { status_code = 409; body = [] })) (text "x.wav") [] [] []).0
      []
    ≡ text "other"
unfolding put stored is
put_conflict = refl

-- The prompt goes as the only message, of the user; here the encoding of a request is its model and
-- the contents of its messages.
abbrev contents : OllamaCodec
contents = record {
  marshal_request = λ r. ok (r.model ++ (text "|" ++ (itoa r.options.seed ++ joined r.messages)));
  decode_content = ok;
}
  where
    joined : List OllamaMessage → Text
    joined [] = []
    joined (m ∷ ms) = text "|" ++ (m.role ++ (text ":" ++ m.content)) ++ joined ms

complete_sends :
    complete contents
      (answering (some (record { status_code = 200; body = text "ok" })))
      (text "http://o")
      (text "audiax-advisor")
      (text "FAKTA")
      []
    ≡ (
      ok (text "ok"),
      record {
        url = text "http://o/api/chat";
        headers = (text "Content-Type", text "application/json") ∷ [];
        body = text "audiax-advisor|" ++ (itoa 42 ++ text "|user:FAKTA");
      }
          ∷ [],
    )
unfolding complete completed
complete_sends = refl

abbrev forms : AiCodec numbers (List ℕ) (List ℕ)
forms = record {
  write_form = λ form. ok (form.content, form.file_field ++ (text ";" ++ form.filename));
  decode_detail = λ raw. raw;
  decode_baseline = λ raw. ok ai_baseline;
  decode_card = λ raw. ok normal_card;
}

calibrate_sends :
    calibrate forms
      (answering (some (record { status_code = 200; body = [] })))
      (text "http://a")
      (text "fake-wav")
      (text "calibration.wav")
      (text "Blower Oven 1")
      []
    ≡ (
      ok ai_baseline,
      record {
        url = text "http://a/v1/calibrate";
        headers = (text "Content-Type", text "audio;calibration.wav") ∷ [];
        body = text "fake-wav";
      }
          ∷ [],
    )
unfolding calibrate multipart_body post received
calibrate_sends = refl

-- The words of the quality gate become the reason of the rejection.
calibrate_refused :
    (calibrate forms
      (answering (some (record { status_code = 400; body = text "terlalu senyap" })))
      (text "http://a")
      []
      []
      []
      []).0
    ≡ err (rejected (text "terlalu senyap"))
unfolding calibrate multipart_body post received error_for
calibrate_refused = refl

inspect_unreachable :
    fails_as (inspect forms (answering none) (text "http://a") [] [] [] []).0 []
    ≡ text "unavailable"
unfolding inspect multipart_body post received is
inspect_unreachable = refl
