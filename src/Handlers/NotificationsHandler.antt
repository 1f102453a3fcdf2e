-- ===== src/Handlers/NotificationsHandler.antt =====
-- src/handlers/notifications_handler.cpp.
use profile_service_cpp.Prelude.{
  String, Bool, false, not, ◌&&◌, ◌==◌, Option, none, some, List, [], ◌∷◌, ◌++◌, if◌then◌else◌,
}
use profile_service_cpp.Prelude.Dict.{find}
use profile_service_cpp.Prelude.Text.{string_eq, found_at_start}
use profile_service_cpp.Platform.{Platform}
use profile_service_cpp.Effect.{Result, ok, throw, lift, try_catch, ◌>>=◌, ◌>>◌}
use profile_service_cpp.Effect.Pure
use profile_service_cpp.Models.{NotificationSettings, new_notification_settings}
use profile_service_cpp.Http.{get, put, verb_beq, HttpRequest, RouteContext, error_response}
use profile_service_cpp.Database.Executor.{QueryExecutor}
use profile_service_cpp.Repository.NotificationRepository as Notifications
use profile_service_cpp.Handlers.Common.{Handled, object, fail, answer, answer_json, read_string}

module _ (P : Platform) (x : QueryExecutor) where
  abbrev pub until_field : NotificationSettings P → List (String × P.Json)
  until_field settings = elim settings.muted_until [
    | none ↦ []
    | some until ↦ ("mutedUntil", P.of_int64 (P.seconds until)) ∷ []
  ]

  abbrev pub chat_field : NotificationSettings P → List (String × P.Json)
  chat_field settings = elim settings.chat_id [
    | none ↦ []
    | some chat_id ↦ ("chat_id", P.of_string chat_id) ∷ []
  ]

  unfoldable pub handle_get_notifications : HttpRequest → RouteContext → Handled P
  handle_get_notifications request context =
      try_catch
        (do
          settings ← Notifications.get P x context.user_id none
          answer_json P 200 request (
              object P (
                ("id", P.of_string settings.id)
                ∷ ("user_id", P.of_string settings.user_id)
                ∷ ("muted", P.of_bool settings.muted)
                ∷ (until_field settings ++ chat_field settings))))
        (λ _. fail P 500 request "failed to get settings")

  unfoldable pub handle_get_chat_notifications : HttpRequest → RouteContext → Handled P
  handle_get_chat_notifications request context =
      try_catch
        (elim (find "chat_id" context.path_params) [
          | none ↦ fail P 400 request "chat_id is required"
          | some chat_id ↦ (do
            settings ←
                try_catch (Notifications.get P x context.user_id (some chat_id))
                  (λ _. Notifications.get P x context.user_id none)
            answer_json P 200 request (
                object P (
                  ("id", P.of_string settings.id)
                  ∷ ("user_id", P.of_string settings.user_id)
                  ∷ ("chat_id", P.of_string chat_id)
                  ∷ ("muted", P.of_bool settings.muted)
                  ∷ until_field settings)))
        ])
        (λ _. fail P 500 request "failed to get settings")

  -- The field `mutedUntil` of a body: absent, unreadable, or a time.
  pub data MutedUntil : Type 0 where
    until : Option P.TimePoint → MutedUntil
    malformed : MutedUntil

  -- `contains("mutedUntil") && !jsonBody["mutedUntil"].is_null()`
  abbrev has_until : P.Json → Result Bool
  has_until j =
      if P.contains j "mutedUntil"
      then elim (P.at j "mutedUntil") [ ok v ↦ ok (not (P.is_null v)) | throw e ↦ throw e ]
      else ok false

  abbrev parse_until : String → MutedUntil
  parse_until s = if s == "" then until none else elim (P.get_time s "%Y-%m-%dT%H:%M:%SZ") [
    | none ↦ malformed
    | some tm ↦ until (some (P.mktime tm))
  ]

  -- the block that reads `mutedUntil`, which both update handlers have
  unfoldable pub read_until : P.Json → Result MutedUntil
  read_until j = Pure.◌>>=◌ (has_until j) λ present.
      if present
      then Pure.◌>>=◌ (read_string P j "mutedUntil") (λ s. ok (parse_until s))
      else ok (until none)

  -- the end of both: store the settings
  abbrev pub store : HttpRequest → RouteContext → Option String → Bool → MutedUntil → Handled P
  store request context chat_id muted malformed =
      fail P 400 request "invalid mutedUntil format, expected RFC3339"
  store request context chat_id muted (until t) = do
    Notifications.upsert P x (record {
      id = (new_notification_settings P).id;
      user_id = context.user_id;
      chat_id = chat_id;
      muted = muted;
      muted_until = t;
    })
    answer P 204 request ""

  unfoldable pub handle_update_notifications : HttpRequest → RouteContext → Handled P
  handle_update_notifications request context =
      try_catch
        (do
          json_body ← lift (P.parse request.body)
          muted ← lift (P.value_bool json_body "muted" false)
          muted_until ← lift (read_until json_body)
          store request context none muted muted_until)
        (λ what. fail P 400 request what)

  unfoldable pub handle_update_chat_notifications : HttpRequest → RouteContext → Handled P
  handle_update_chat_notifications request context =
      try_catch
        (elim (find "chat_id" context.path_params) [
          | none ↦ fail P 400 request "chat_id is required"
          | some chat_id ↦ (do
            json_body ← lift (P.parse request.body)
            muted ← lift (P.value_bool json_body "muted" false)
            muted_until ← lift (read_until json_body)
            store request context (some chat_id) muted muted_until)
        ])
        (λ what. fail P 400 request what)

  unfoldable pub handle : HttpRequest → RouteContext → Handled P
  unfolding found_at_start error_response
  handle request context =
      if verb_beq request.method get && request.target == "/notifications"
      then handle_get_notifications request context
      else if verb_beq request.method get && found_at_start request.target "/notifications/"
      then handle_get_chat_notifications request context
      else if verb_beq request.method put && request.target == "/notifications"
      then handle_update_notifications request context
      else if verb_beq request.method put && found_at_start request.target "/notifications/"
      then handle_update_chat_notifications request context
      else fail P 404 request "not_found"
