-- ===== src/Repository/ContactsRepository.antt =====
-- src/repository/contacts_repository.cpp.
pub mod Laws
mod Tests
use profile_service_cpp.Prelude.{String, List, [], ◌∷◌, value_or}
use profile_service_cpp.Platform.{Platform}
use profile_service_cpp.Effect.{Action, ◌>>=◌}
use profile_service_cpp.Models.{Contact}
use profile_service_cpp.Database.Value.{string_value}
use profile_service_cpp.Database.Executor.{QueryExecutor, execute_select, execute_modify}
use profile_service_cpp.Mappers.{map_contact}
use profile_service_cpp.Repository.Rows.{map_rows}

abbrev pub list_query : String
list_query =
    "SELECT owner_id, contact_id, alias, created_at FROM contacts WHERE owner_id = $1 ORDER BY created_at DESC"

abbrev pub add_query : String
add_query =
    "INSERT INTO contacts (owner_id, contact_id, alias) VALUES ($1, $2, $3) ON CONFLICT (owner_id, contact_id) DO UPDATE SET alias = $3"

abbrev pub remove_query : String
remove_query = "DELETE FROM contacts WHERE owner_id = $1 AND contact_id = $2"

module _ (P : Platform) (x : QueryExecutor) where
  unfoldable pub list : String → Action P.World (List (Contact P))
  list owner_id = do
    result ← execute_select P x list_query (string_value owner_id ∷ [])
    map_rows P (map_contact P) result

  unfoldable pub add : Contact P → Action P.World (Unit {0})
  add contact = execute_modify P x add_query (
      string_value contact.owner_id
      ∷ string_value contact.contact_id
      ∷ string_value (value_or contact.alias "")
      ∷ [])

  unfoldable pub remove : String → String → Action P.World (Unit {0})
  remove owner_id contact_id =
      execute_modify P x remove_query (string_value owner_id ∷ string_value contact_id ∷ [])
