-- ===== src/Repository/NotificationRepository.antt =====
-- src/repository/notifications_repository.cpp.
pub mod Table
pub mod Laws
use profile_service_cpp.Prelude.{String, false, Option, none, some, List, [], ◌∷◌, ◌++◌, value_or}
use profile_service_cpp.Platform.{Platform}
use profile_service_cpp.Effect.{Action, ret, ◌>>=◌}
use profile_service_cpp.Models.{NotificationSettings, new_notification_settings}
use profile_service_cpp.Database.Value.{DbValue, string_value, bool_value}
use profile_service_cpp.Database.Executor.{QueryExecutor, execute_select, execute_modify}
use profile_service_cpp.Mappers.{map_notification}
use profile_service_cpp.Repository.Rows.{first_row}

abbrev pub get_global_query : String
get_global_query =
    "SELECT id, user_id, chat_id, muted, muted_until FROM notification_settings WHERE user_id = $1 AND chat_id IS NULL"

abbrev pub get_chat_query : String
get_chat_query =
    "SELECT id, user_id, chat_id, muted, muted_until FROM notification_settings WHERE user_id = $1 AND chat_id = $2"

abbrev pub upsert_until_query : String
upsert_until_query =
    "INSERT INTO notification_settings (user_id, chat_id, muted, muted_until) VALUES ($1, $2, $3, $4) ON CONFLICT (user_id, chat_id) DO UPDATE SET muted = $3, muted_until = $4"

abbrev pub upsert_query : String
upsert_query =
    "INSERT INTO notification_settings (user_id, chat_id, muted, muted_until) VALUES ($1, $2, $3, NULL) ON CONFLICT (user_id, chat_id) DO UPDATE SET muted = $3, muted_until = NULL"

module _ (P : Platform) (x : QueryExecutor) where
  -- The statement and the parameters that `Get` chooses.
  abbrev get_statement : String → Option String → String × List (DbValue P)
  get_statement user_id none = (get_global_query, string_value user_id ∷ [])
  get_statement user_id (some chat_id) =
      (get_chat_query, (string_value user_id ∷ []) ++ string_value chat_id ∷ [])

  abbrev default_settings : String → Option String → NotificationSettings P
  default_settings user_id chat_id =
      let blank = new_notification_settings P in
      record blank { user_id = user_id; muted = false; chat_id = some (value_or chat_id "") }

  unfoldable pub get : String → Option String → Action P.World (NotificationSettings P)
  get user_id chat_id =
      let (query, params) = get_statement user_id chat_id in
      (do
        result ← execute_select P x query params
        first_row P (map_notification P) result (ret (default_settings user_id chat_id)))

  -- The three parameters that every upsert has.
  abbrev upsert_params : NotificationSettings P → List (DbValue P)
  upsert_params settings =
      string_value settings.user_id
      ∷ string_value (value_or settings.chat_id "")
      ∷ bool_value settings.muted
      ∷ []

  unfoldable pub upsert : NotificationSettings P → Action P.World (Unit {0})
  upsert settings = elim settings.muted_until [
    | some until ↦ execute_modify P x upsert_until_query (
        upsert_params settings
        ++ string_value (P.strftime "%Y-%m-%d %H:%M:%S" (P.gmtime (P.seconds until))) ∷ [])
    | none ↦ execute_modify P x upsert_query (upsert_params settings)
  ]
