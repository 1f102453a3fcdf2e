-- ===== src/Repository/ContactsRepository/Tests.antt =====
-- Contacts stored and listed on a concrete table.
use profile_service_cpp.Prelude.{
  String, ◌==◌, Option, none, some, ◌&&◌, List, [], ◌∷◌, ◌≡◌, refl, if◌then◌else◌,
}
use profile_service_cpp.Prelude.Dict.{Dict, find}
use profile_service_cpp.Prelude.Text.{string_eq}
use profile_service_cpp.Effect.{ok, ◌>>◌}
use profile_service_cpp.Models.{Contact}
use profile_service_cpp.Repository.Sql.{open_executor}
use profile_service_cpp.Repository.ContactsRepository.{list, add}
use profile_service_cpp.Repository.ContactsRepository.Laws.{entries, add-list_alias}
use profile_service_cpp.Bench.Contacts.{contact_bench, contact_table}

-- every user has Bob for a contact
abbrev bobs : String → Dict String (Option String)
bobs u = ("bob", some "bobby") ∷ []

abbrev renamed : Contact contact_bench
renamed = record { owner_id = "alice"; contact_id = "bob"; alias = none; created_at = 0 }

add-list_alias_example :
    (cs : List (Contact contact_bench)) × (((add contact_bench
            (open_executor contact_bench contact_table.server)
            renamed
          >> list contact_bench (open_executor contact_bench contact_table.server) "alice")
        bobs).0
      ≡ ok cs)
    × (find "bob" (entries contact_bench contact_table cs) ≡ (
        if "alice" == "alice" && "bob" == "bob" then some (some "") else find "bob" (bobs "alice")))
add-list_alias_example =
    add-list_alias contact_bench contact_table renamed "alice" "bob" bobs refl refl
