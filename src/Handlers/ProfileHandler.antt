-- ===== src/Handlers/ProfileHandler.antt =====
-- src/handlers/profile_handler.cpp.
use profile_service_cpp.Prelude.{
  String, ◌<>◌, not, ◌&&◌, ◌==◌, none, some, List, [], ◌∷◌, is_empty, value_or, if◌then◌else◌,
}
use profile_service_cpp.Prelude.Dict.{find}
use profile_service_cpp.Prelude.Text.{string_eq, found_at_start, found_from}
use profile_service_cpp.Platform.{Platform}
use profile_service_cpp.Effect.{lift, try_catch, ◌>>=◌, ◌>>◌}
use profile_service_cpp.Models.{Profile}
use profile_service_cpp.Http.{
  get, post, patch, delete_, verb_beq, HttpRequest, RouteContext, error_response,
}
use profile_service_cpp.Base64.{decode_base64}
use profile_service_cpp.Storage.{MinioStorage, upload, delete}
use profile_service_cpp.Database.Executor.{QueryExecutor}
use profile_service_cpp.Repository.ProfileRepository.{create, get_by_id, update, update_avatar_url}
use profile_service_cpp.Handlers.Common.{
  Handled, object, fail, answer, answer_json, read_string, read_field,
}

module _ (P : Platform) (x : QueryExecutor) (storage : MinioStorage) where
  abbrev time_stamps : Profile P → List (String × P.Json)
  time_stamps profile =
      ("created_at", P.of_int64 (P.seconds profile.created_at))
      ∷ ("updated_at", P.of_int64 (P.seconds profile.updated_at))
      ∷ []

  -- The fields of a profile in front of others; an absent one is shown as the empty text.
  abbrev pub profile_fields : Profile P → List (String × P.Json) → List (String × P.Json)
  profile_fields profile more =
      ("user_id", P.of_string profile.user_id)
      ∷ ("first_name", P.of_string (value_or profile.first_name ""))
      ∷ ("last_name", P.of_string (value_or profile.last_name ""))
      ∷ ("username", P.of_string (value_or profile.username ""))
      ∷ ("bio", P.of_string (value_or profile.bio ""))
      ∷ ("avatar_url", P.of_string (value_or profile.avatar_url ""))
      ∷ more

  unfoldable pub handle_create_profile : HttpRequest → RouteContext → Handled P
  handle_create_profile request context =
      try_catch
        (do
          json_body ← lift (P.parse request.body)
          user_id ← lift (P.value_string json_body "user_id" "")
          (if user_id == "" then fail P 400 request "user_id required" else (do
            profile ← create P x user_id
            answer_json P 201 request
                (object P (("user_id", P.of_string profile.user_id) ∷ time_stamps profile)))))
        (λ _. fail P 500 request "create failed")

  unfoldable pub handle_get_my_profile : HttpRequest → RouteContext → Handled P
  handle_get_my_profile request context =
      try_catch
        (do
          profile ← get_by_id P x context.user_id
          answer_json P 200 request (object P (profile_fields profile (time_stamps profile))))
        (λ _. fail P 404 request "profile not found")

  unfoldable pub handle_get_profile_by_id : HttpRequest → RouteContext → Handled P
  handle_get_profile_by_id request context =
      try_catch
        (elim (find "user_id" context.path_params) [
          | none ↦ fail P 400 request "user_id required"
          | some user_id ↦ (do
            profile ← get_by_id P x user_id
            answer_json P 200 request (object P (profile_fields profile (time_stamps profile))))
        ])
        (λ _. fail P 404 request "profile not found")

  -- the `catch` block of `HandleUpdateProfile`
  unfoldable pub update_failed : HttpRequest → String → Handled P
  unfolding found_from error_response
  update_failed request error_msg =
      if found_from error_msg "username already taken" 0
      then fail P 409 request "username already taken"
      else fail P 500 request "update failed"

  unfoldable pub handle_update_profile : HttpRequest → RouteContext → Handled P
  handle_update_profile request context =
      try_catch
        (do
          json_body ← lift (P.parse request.body)
          profile ← get_by_id P x context.user_id
          first_name ← lift (read_field P json_body "first_name" profile.first_name)
          last_name ← lift (read_field P json_body "last_name" profile.last_name)
          username ← lift (read_field P json_body "username" profile.username)
          bio ← lift (read_field P json_body "bio" profile.bio)
          let changed : Profile P = record profile {
            first_name = first_name;
            last_name = last_name;
            username = username;
            bio = bio;
          }
          update P x changed
          answer_json P 200 request (object P (profile_fields changed [])))
        (update_failed request)

  unfoldable pub handle_upload_avatar : HttpRequest → RouteContext → Handled P
  handle_upload_avatar request context =
      try_catch
        (do
          json_body ← lift (P.parse request.body)
          (if not (P.contains json_body "image_data")
              then fail P 400 request "image_data (base64) is required"
              else (do
                base64_data ← lift (read_string P json_body "image_data")
                content_type ← lift (P.value_string json_body "content_type" "image/jpeg")
                let image_data = decode_base64 base64_data
                (if is_empty image_data then fail P 400 request "invalid image data" else (do
                  avatar_url ← lift (upload storage context.user_id image_data content_type)
                  update_avatar_url P x context.user_id avatar_url
                  answer_json P 200 request (
                      object P (
                        ("user_id", P.of_string context.user_id)
                        ∷ ("avatar_url", P.of_string avatar_url)
                        ∷ [])))))))
        (λ what. fail P 500 request ("upload failed: " <> what))

  unfoldable pub handle_delete_avatar : HttpRequest → RouteContext → Handled P
  handle_delete_avatar request context =
      try_catch
        (do
          lift (delete storage context.user_id)
          update_avatar_url P x context.user_id ""
          answer P 204 request "")
        (λ _. fail P 500 request "delete failed")

  unfoldable pub handle : HttpRequest → RouteContext → Handled P
  unfolding found_at_start error_response
  handle request context =
      if verb_beq request.method post && request.target == "/internal/profiles"
      then handle_create_profile request context
      else if verb_beq request.method get && request.target == "/me"
      then handle_get_my_profile request context
      else if verb_beq request.method patch && request.target == "/me"
      then handle_update_profile request context
      else if verb_beq request.method get
          && found_at_start request.target "/"
          && not (request.target == "/me")
      then handle_get_profile_by_id request context
      else if verb_beq request.method post && request.target == "/me/avatar"
      then handle_upload_avatar request context
      else if verb_beq request.method delete_ && request.target == "/me/avatar"
      then handle_delete_avatar request context
      else fail P 404 request "not_found"
