-- ===== src/Repository/Tests.antt =====
-- Repositories on concrete platforms.
use profile_service_cpp.Prelude.{
  List, ◌&&◌, ◌||◌, not, [], ◌∷◌, String, ◌==◌, true, Option, none, some, ◌≡◌, refl, if◌then◌else◌,
}
use profile_service_cpp.Effect.{ok, ◌>>◌}
use profile_service_cpp.Models.{Favorite, PrivacySettings, NotificationSettings}
use profile_service_cpp.Database.ResultSet.{new_result_set}
use profile_service_cpp.Mappers.{map_contact}
use profile_service_cpp.Repository.Rows.{map_rows}
use profile_service_cpp.Repository.Laws.{traverse, map_rows-eq-traverse}
use profile_service_cpp.Repository.Sql.{open_executor}
use profile_service_cpp.Repository.PrivacyRepository
use profile_service_cpp.Repository.PrivacyRepository.Laws.{update-get}
use profile_service_cpp.Repository.NotificationRepository
use profile_service_cpp.Repository.NotificationRepository.Table.{StoredRow}
use profile_service_cpp.Repository.FavoriteRepository
use profile_service_cpp.Repository.FavoriteRepository.Laws.{has, chats, add-list, remove-list}
use profile_service_cpp.Bench.Favorites.{favorite_bench, favorite_table}
use profile_service_cpp.Bench.{bench}
use profile_service_cpp.Bench.Tables.{privacy_bench, privacy_table, notification_bench}

map_rows-eq-traverse_example :
    map_rows bench (map_contact bench) (new_result_set bench (("a" ∷ []) ∷ ("b" ∷ []) ∷ [])) []
    ≡ traverse bench (map_contact bench) [] (("a" ∷ []) ∷ ("b" ∷ []) ∷ []) []
map_rows-eq-traverse_example =
    map_rows-eq-traverse bench (map_contact bench) (("a" ∷ []) ∷ ("b" ∷ []) ∷ []) []

abbrev private_settings : String → PrivacySettings
private_settings u = record {
  user_id = u;
  profile_visibility = "nobody";
  last_seen_visibility = "contacts";
  avatar_visibility = "everyone";
}

-- a table with the settings of one user
abbrev bob_only : String → Option PrivacySettings
bob_only u = if u == "bob" then some (private_settings "bob") else none

update-get_example :
    ((PrivacyRepository.update privacy_bench
          (open_executor privacy_bench privacy_table.server)
          (private_settings "alice")
        >> PrivacyRepository.get privacy_bench
            (open_executor privacy_bench privacy_table.server)
            "alice")
      bob_only).0
    ≡ ok (private_settings "alice")
update-get_example =
    update-get privacy_bench privacy_table (private_settings "alice") "alice" bob_only refl refl

abbrev muting : Option String → NotificationSettings notification_bench
muting k = record { id = ""; user_id = "alice"; chat_id = k; muted = true; muted_until = some 5 }

abbrev no_rows : String → Option String → Option StoredRow
no_rows u k = none

abbrev team_chat : String → List String
team_chat u = "team" ∷ []

add-list_example :
    (fs : List (Favorite favorite_bench)) × (((FavoriteRepository.add favorite_bench
            (open_executor favorite_bench favorite_table.server)
            "alice"
            "books"
          >> FavoriteRepository.list favorite_bench
              (open_executor favorite_bench favorite_table.server)
              "alice")
        team_chat).0
      ≡ ok fs)
    × (has "books" (chats favorite_bench favorite_table fs)
        ≡ ("alice" == "alice" && "books" == "books" || has "books" (team_chat "alice")))
add-list_example =
    add-list favorite_bench favorite_table "alice" "books" "alice" "books" team_chat refl refl

remove-list_example :
    (fs : List (Favorite favorite_bench)) × (((FavoriteRepository.remove favorite_bench
            (open_executor favorite_bench favorite_table.server)
            "alice"
            "team"
          >> FavoriteRepository.list favorite_bench
              (open_executor favorite_bench favorite_table.server)
              "bob")
        team_chat).0
      ≡ ok fs)
    × (has "team" (chats favorite_bench favorite_table fs)
        ≡ (not ("alice" == "bob" && "team" == "team") && has "team" (team_chat "bob")))
remove-list_example =
    remove-list favorite_bench favorite_table "alice" "team" "bob" "team" team_chat refl
