-- ===== src/Http/Upload/Bounds.antt =====
-- Which uploads are accepted, and as what.
use audiax_backend.Common.{
  ℕ, ◌≤◌, ◌≡◌, ◌≢◌, refl, sym, ◌∙◌, ap, ◌↔◌, inl, inr, false, none, some, Option, List, [], ◌∷◌,
  arith, ltb, le_of_ltb, length, take, take_all, Bool-cases,
}
use audiax_backend.Common.Text.{Text}
use audiax_backend.Constants.{max_audio_upload_bytes}
use audiax_backend.Errors.{Error}
use audiax_backend.Exec.{Result, ok, err}
use audiax_backend.Http.Request.{Content, unopened, unreadable, readable, FileHeader}
use audiax_backend.Http.Upload.{not_empty, read_content, read_audio_upload}

-- A file of the form that opens and reads, neither empty nor over the limit.
pub record IsUpload (file : Option FileHeader) (audio : List ℕ) (filename : Text) : Type 0 where
  pub header : FileHeader
  pub given : file ≡ some header
  pub named : header.filename ≡ filename
  pub read : header.content ≡ readable audio
  pub filled : audio ≢ []
  pub within : length audio ≤ max_audio_upload_bytes

-- The form's size of a file is the number of its bytes.
abbrev pub IsSized : Option FileHeader → Type 0
IsSized none = Unit
IsSized (some header) =
    (bytes : List ℕ) → header.content ≡ readable bytes → header.size ≡ length bytes

not_empty_ok :
    (bytes audio : List ℕ) (name filename : Text)
    → not_empty bytes name ≡ ok (audio, filename)
    → (bytes ≡ audio) × (name ≡ filename) × (audio ≢ [])
not_empty_ok [] audio name filename h = cc
not_empty_ok (b ∷ bytes) audio name filename h =
    let same : b ∷ bytes ≡ audio = cc in (same, cc, λ e. cc)

read_sound :
    (content : Content) (size : ℕ) (audio : List ℕ) (name filename : Text)
    → ((bytes : List ℕ) → content ≡ readable bytes → size ≡ length bytes)
    → size ≤ max_audio_upload_bytes
    → read_content content name ≡ ok (audio, filename)
    → (content ≡ readable audio)
      × (name ≡ filename)
      × (audio ≢ [])
      × (length audio ≤ max_audio_upload_bytes)
read_sound unopened size audio name filename sized le h = cc
read_sound unreadable size audio name filename sized le h = cc
read_sound (readable bytes) size audio name filename sized le h =
    let (taken, named, filled) =
      not_empty_ok (take max_audio_upload_bytes bytes) audio name filename h in
    let counted = sized bytes refl in
    let small : length bytes ≤ max_audio_upload_bytes = rw (← counted) le in
    let whole : bytes ≡ audio = sym (take_all max_audio_upload_bytes bytes small) ∙ taken in
    (ap readable whole, named, filled, rw (← whole) small)

not_empty_complete :
    (audio : List ℕ) (filename : Text)
    → audio ≢ []
    → not_empty audio filename ≡ ok (audio, filename)
not_empty_complete [] filename filled = absurd (filled refl)
not_empty_complete (b ∷ audio) filename filled = refl

read_audio_upload-IsUpload :
    (file : Option FileHeader) (audio : List ℕ) (filename : Text)
    → IsSized file
    → read_audio_upload file ≡ ok (audio, filename)
    → IsUpload file audio filename
unfolding read_audio_upload
read_audio_upload-IsUpload none audio filename sized h = cc
read_audio_upload-IsUpload (some header) audio filename sized h =
    elim (Bool-cases (ltb max_audio_upload_bytes header.size)) [
      | inl large ↦ absurd (err-ne-ok (rw large at h))
      | inr fits ↦
          let (read, named, filled, within) =
            read_sound header.content header.size audio header.filename filename sized
              (le_of_ltb max_audio_upload_bytes header.size fits) (rw fits at h) in
          record {
            header = header;
            given = refl;
            named = named;
            read = read;
            filled = filled;
            within = within;
          }
    ]
  where
    err-ne-ok : {e : Error} → Path (Result (List ℕ × Text)) (err e) (ok (audio, filename)) → ⊥
    err-ne-ok p = cc

upload_complete :
    (file : Option FileHeader) (audio : List ℕ) (filename : Text)
    → IsSized file
    → IsUpload file audio filename
    → read_audio_upload file ≡ ok (audio, filename)
unfolding read_audio_upload
upload_complete none audio filename sized u = cc (u.given)
upload_complete (some header) audio filename sized u =
    let same : header ≡ u.header = cc (u.given) in
    let content : header.content ≡ readable audio = rw same u.read in
    let counted = sized audio content in
    let within = u.within in
    let fits : ltb max_audio_upload_bytes header.size ≡ false = ground arith in
    rw (fits, content, take_all max_audio_upload_bytes audio within)
      (ap (λ n. not_empty audio n) (rw same u.named) ∙ not_empty_complete audio filename u.filled)

-- An upload is accepted, with a list of bytes and a name, exactly when the form has a file that opens
-- and reads, these are its bytes and its name, and the bytes are at least one and at most 16 MiB. So
-- an accepted file is never cut off. The size that the form gives is the number of the bytes.
pub read_audio_upload_iff :
    (file : Option FileHeader) (audio : List ℕ) (filename : Text)
    → IsSized file
    → (read_audio_upload file ≡ ok (audio, filename)) ↔ IsUpload file audio filename
read_audio_upload_iff file audio filename sized = (
  read_audio_upload-IsUpload file audio filename sized,
  upload_complete file audio filename sized,
)
