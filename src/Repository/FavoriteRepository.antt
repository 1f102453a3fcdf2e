-- ===== src/Repository/FavoriteRepository.antt =====
-- src/repository/favorites_repository.cpp.
pub mod Laws
use profile_service_cpp.Prelude.{String, List, [], ◌∷◌}
use profile_service_cpp.Platform.{Platform}
use profile_service_cpp.Effect.{Action, ◌>>=◌}
use profile_service_cpp.Models.{Favorite}
use profile_service_cpp.Database.Value.{string_value}
use profile_service_cpp.Database.Executor.{QueryExecutor, execute_select, execute_modify}
use profile_service_cpp.Mappers.{map_favorite}
use profile_service_cpp.Repository.Rows.{map_rows}

abbrev pub list_query : String
list_query =
    "SELECT user_id, chat_id, created_at FROM favorites WHERE user_id = $1 ORDER BY created_at DESC"

abbrev pub add_query : String
add_query =
    "INSERT INTO favorites (user_id, chat_id) VALUES ($1, $2) ON CONFLICT (user_id, chat_id) DO NOTHING"

abbrev pub remove_query : String
remove_query = "DELETE FROM favorites WHERE user_id = $1 AND chat_id = $2"

module _ (P : Platform) (x : QueryExecutor) where
  unfoldable pub list : String → Action P.World (List (Favorite P))
  list user_id = do
    result ← execute_select P x list_query (string_value user_id ∷ [])
    map_rows P (map_favorite P) result

  unfoldable pub add : String → String → Action P.World (Unit {0})
  add user_id chat_id =
      execute_modify P x add_query (string_value user_id ∷ string_value chat_id ∷ [])

  unfoldable pub remove : String → String → Action P.World (Unit {0})
  remove user_id chat_id =
      execute_modify P x remove_query (string_value user_id ∷ string_value chat_id ∷ [])
