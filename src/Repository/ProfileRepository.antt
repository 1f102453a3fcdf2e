-- ===== src/Repository/ProfileRepository.antt =====
-- src/repository/profile_repository.cpp.
pub mod Table
pub mod Runs
pub mod Laws
mod Tests
use profile_service_cpp.Prelude.{String, [], ◌∷◌, value_or}
use profile_service_cpp.Platform.{Platform}
use profile_service_cpp.Effect.{Action, raise, try_catch, ◌>>=◌}
use profile_service_cpp.Models.{Profile}
use profile_service_cpp.Database.Value.{string_value}
use profile_service_cpp.Database.Executor.{QueryExecutor, execute_select, execute_modify}
use profile_service_cpp.Mappers.{map_profile}
use profile_service_cpp.Repository.Rows.{first_row}

abbrev pub create_query : String
create_query =
    "INSERT INTO profiles (user_id) VALUES ($1) ON CONFLICT (user_id) DO UPDATE SET updated_at = now() RETURNING user_id, first_name, last_name, username, bio, avatar_url, last_seen_at, created_at, updated_at"

abbrev pub get_by_id_query : String
get_by_id_query =
    "SELECT user_id, first_name, last_name, username, bio, avatar_url, last_seen_at, created_at, updated_at FROM profiles WHERE user_id = $1"

abbrev pub update_query : String
update_query =
    "UPDATE profiles SET first_name = $1, last_name = $2, username = $3, bio = $4, updated_at = now() WHERE user_id = $5"

abbrev pub update_avatar_query : String
update_avatar_query = "UPDATE profiles SET avatar_url = $1, updated_at = now() WHERE user_id = $2"

module _ (P : Platform) (x : QueryExecutor) where
  unfoldable pub create : String → Action P.World (Profile P)
  create user_id = do
    result ← execute_select P x create_query (string_value user_id ∷ [])
    first_row P (map_profile P) result (raise "Failed to create profile")

  unfoldable pub get_by_id : String → Action P.World (Profile P)
  get_by_id user_id = do
    result ← execute_select P x get_by_id_query (string_value user_id ∷ [])
    first_row P (map_profile P) result (raise "Profile not found")

  -- Every exception is taken for a clash of usernames.
  unfoldable pub update : Profile P → Action P.World (Unit {0})
  update profile =
      try_catch
        (execute_modify P x update_query (
          string_value (value_or profile.first_name "")
          ∷ string_value (value_or profile.last_name "")
          ∷ string_value (value_or profile.username "")
          ∷ string_value (value_or profile.bio "")
          ∷ string_value profile.user_id
          ∷ []))
        (λ _. raise "username already taken")

  unfoldable pub update_avatar_url : String → String → Action P.World (Unit {0})
  update_avatar_url user_id url =
      execute_modify P x update_avatar_query (string_value url ∷ string_value user_id ∷ [])
