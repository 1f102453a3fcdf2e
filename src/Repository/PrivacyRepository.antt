-- ===== src/Repository/PrivacyRepository.antt =====
-- src/repository/privacy_repository.cpp.
pub mod Laws
use profile_service_cpp.Prelude.{String, [], ◌∷◌}
use profile_service_cpp.Platform.{Platform}
use profile_service_cpp.Effect.{Action, ret, ◌>>=◌}
use profile_service_cpp.Models.{PrivacySettings}
use profile_service_cpp.Database.Value.{string_value}
use profile_service_cpp.Database.Executor.{QueryExecutor, execute_select, execute_modify}
use profile_service_cpp.Mappers.{map_privacy_settings}
use profile_service_cpp.Repository.Rows.{first_row}

abbrev pub get_query : String
get_query =
    "SELECT user_id, profile_visibility, last_seen_visibility, avatar_visibility FROM privacy_settings WHERE user_id = $1"

abbrev pub update_query : String
update_query =
    "INSERT INTO privacy_settings (user_id, profile_visibility, last_seen_visibility, avatar_visibility) VALUES ($1, $2, $3, $4) ON CONFLICT (user_id) DO UPDATE SET profile_visibility = $2, last_seen_visibility = $3, avatar_visibility = $4"

abbrev pub default_settings : String → PrivacySettings
default_settings user_id = record {
  user_id = user_id;
  profile_visibility = "everyone";
  last_seen_visibility = "everyone";
  avatar_visibility = "everyone";
}

module _ (P : Platform) (x : QueryExecutor) where
  unfoldable pub get : String → Action P.World PrivacySettings
  get user_id = do
    result ← execute_select P x get_query (string_value user_id ∷ [])
    first_row P (map_privacy_settings P) result (ret (default_settings user_id))

  unfoldable pub update : PrivacySettings → Action P.World (Unit {0})
  update settings = execute_modify P x update_query (
      string_value settings.user_id
      ∷ string_value settings.profile_visibility
      ∷ string_value settings.last_seen_visibility
      ∷ string_value settings.avatar_visibility
      ∷ [])
