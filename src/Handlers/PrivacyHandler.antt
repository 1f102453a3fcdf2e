-- ===== src/Handlers/PrivacyHandler.antt =====
-- src/handlers/privacy_handler.cpp.
use profile_service_cpp.Prelude.{◌&&◌, ◌==◌, [], ◌∷◌, if◌then◌else◌}
use profile_service_cpp.Platform.{Platform}
use profile_service_cpp.Effect.{lift, try_catch, ◌>>=◌, ◌>>◌}
use profile_service_cpp.Models.{PrivacySettings}
use profile_service_cpp.Http.{get, put, verb_beq, HttpRequest, RouteContext, error_response}
use profile_service_cpp.Database.Executor.{QueryExecutor}
use profile_service_cpp.Repository.PrivacyRepository as Privacy
use profile_service_cpp.Handlers.Common.{Handled, object, fail, answer, answer_json}

module _ (P : Platform) (x : QueryExecutor) where
  abbrev pub settings_object : PrivacySettings → P.Json
  settings_object settings = object P (
      ("user_id", P.of_string settings.user_id)
      ∷ ("profile_visibility", P.of_string settings.profile_visibility)
      ∷ ("last_seen_visibility", P.of_string settings.last_seen_visibility)
      ∷ ("avatar_visibility", P.of_string settings.avatar_visibility)
      ∷ [])

  unfoldable pub handle_get_privacy : HttpRequest → RouteContext → Handled P
  handle_get_privacy request context =
      try_catch
        (do
          settings ← Privacy.get P x context.user_id
          answer_json P 200 request (settings_object settings))
        (λ _. fail P 500 request "failed to get privacy settings")

  unfoldable pub handle_update_privacy : HttpRequest → RouteContext → Handled P
  handle_update_privacy request context =
      try_catch
        (do
          json_body ← lift (P.parse request.body)
          profile_visibility ← lift (P.value_string json_body "profile_visibility" "everyone")
          last_seen_visibility ← lift (P.value_string json_body "last_seen_visibility" "everyone")
          avatar_visibility ← lift (P.value_string json_body "avatar_visibility" "everyone")
          Privacy.update P x (record {
            user_id = context.user_id;
            profile_visibility = profile_visibility;
            last_seen_visibility = last_seen_visibility;
            avatar_visibility = avatar_visibility;
          })
          answer P 204 request "")
        (λ _. fail P 500 request "update failed")

  unfoldable pub handle : HttpRequest → RouteContext → Handled P
  unfolding error_response
  handle request context =
      if verb_beq request.method get && request.target == "/me/privacy"
      then handle_get_privacy request context
      else if verb_beq request.method put && request.target == "/me/privacy"
      then handle_update_privacy request context
      else fail P 404 request "not_found"
