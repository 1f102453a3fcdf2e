-- ===== src/Handlers/Avatars.antt =====
-- What `HandleUploadAvatar` refuses.
use profile_service_cpp.Prelude.{String, true, [], ◌≡◌, arith}
use profile_service_cpp.Platform.{Platform}
use profile_service_cpp.Effect.{ok}
use profile_service_cpp.Http.{HttpRequest, RouteContext, error_response}
use profile_service_cpp.Prelude.Text.{bytes_of}
use profile_service_cpp.Base64.{decode_base64}
use profile_service_cpp.Base64.Reference.{sextets}
use profile_service_cpp.Base64.Laws.{decode_bytes-eq-nil_iff}
use profile_service_cpp.Storage.{MinioStorage}
use profile_service_cpp.Database.Executor.{QueryExecutor}
use profile_service_cpp.Handlers.Common.{read_string}
use profile_service_cpp.Handlers.ProfileHandler.{handle_upload_avatar}

module _ (P : Platform) (x : QueryExecutor) (storage : MinioStorage) (q : HttpRequest)
    (c : RouteContext) (j : P.Json) (text content_type : String) (parsed : P.parse q.body ≡ ok j)
    (present : P.contains j "image_data" ≡ true) (texted : read_string P j "image_data" ≡ ok text)
    (typed : P.value_string j "content_type" "image/jpeg" ≡ ok content_type) where
  decode_base64-nil : sextets (bytes_of text) ≡ [] → decode_base64 text ≡ []
  unfolding decode_base64
  decode_base64-nil h = (decode_bytes-eq-nil_iff (bytes_of text)).1 h

  -- Image data with no character of the Base64 alphabet before the first `=` is answered with 400 and
  -- stored nowhere.
  handle_upload_avatar_rejects :
      (w : P.World)
      → sextets (bytes_of text) ≡ []
      → handle_upload_avatar P x storage q c w
        ≡ (ok (error_response 400 q.version "invalid image data"), w)
  unfolding handle_upload_avatar
  handle_upload_avatar_rejects w h = ground (arith, decode_base64-nil h)
