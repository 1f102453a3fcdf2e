-- ===== src/Handlers/ContactsHandler.antt =====
-- src/handlers/contacts_handler.cpp.
use profile_service_cpp.Prelude.{◌&&◌, ◌==◌, none, some, List, [], ◌∷◌, value_or, if◌then◌else◌}
use profile_service_cpp.Prelude.Dict.{find}
use profile_service_cpp.Prelude.Text.{string_eq, found_at_start}
use profile_service_cpp.Platform.{Platform}
use profile_service_cpp.Effect.{lift, try_catch, ◌>>=◌, ◌>>◌}
use profile_service_cpp.Models.{Contact, new_contact}
use profile_service_cpp.Http.{
  get, post, delete_, verb_beq, HttpRequest, RouteContext, error_response,
}
use profile_service_cpp.Database.Executor.{QueryExecutor}
use profile_service_cpp.Repository.ContactsRepository.{list, add, remove}
use profile_service_cpp.Handlers.Common.{Handled, object, fail, answer, answer_json, read_field}

module _ (P : Platform) (x : QueryExecutor) where
  -- One element of the answer.
  abbrev pub contact_item : Contact P → P.Json
  contact_item contact = object P (
      ("owner_id", P.of_string contact.owner_id)
      ∷ ("contact_id", P.of_string contact.contact_id)
      ∷ ("alias", P.of_string (value_or contact.alias ""))
      ∷ ("created_at", P.of_int64 (P.seconds contact.created_at))
      ∷ [])

  -- the loop over the contacts
  unfoldable pub push_contacts : P.Json → List (Contact P) → P.Json
  push_contacts response [] = response
  push_contacts response (contact ∷ contacts) =
      push_contacts (P.push_back response (contact_item contact)) contacts

  unfoldable pub handle_get_contacts : HttpRequest → RouteContext → Handled P
  handle_get_contacts request context =
      try_catch
        (do
          contacts ← list P x context.user_id
          answer_json P 200 request (push_contacts P.empty_array contacts))
        (λ _. fail P 404 request "contacts not found")

  unfoldable pub handle_add_contact : HttpRequest → RouteContext → Handled P
  handle_add_contact request context =
      try_catch
        (do
          json_body ← lift (P.parse request.body)
          contact_id ← lift (P.value_string json_body "contact_id" "")
          (if contact_id == "" then fail P 400 request "contact_id is required" else (do
            alias ← lift (read_field P json_body "alias" none)
            add P x (record {
              owner_id = context.user_id;
              contact_id = contact_id;
              alias = alias;
              created_at = (new_contact P).created_at;
            })
            answer_json P 201 request (
                object P (
                  ("owner_id", P.of_string context.user_id)
                  ∷ ("contact_id", P.of_string contact_id)
                  ∷ ("alias", P.of_string (value_or alias ""))
                  ∷ [])))))
        (λ _. fail P 409 request "failed to add contact")

  unfoldable pub handle_delete_contact : HttpRequest → RouteContext → Handled P
  handle_delete_contact request context =
      try_catch
        (elim (find "contact_id" context.path_params) [
          | none ↦ fail P 400 request "contact_id is required"
          | some contact_id ↦ (do remove P x context.user_id contact_id; answer P 204 request "")
        ])
        (λ _. fail P 404 request "contact not found")

  unfoldable pub handle : HttpRequest → RouteContext → Handled P
  unfolding found_at_start error_response
  handle request context =
      if verb_beq request.method get && request.target == "/contacts"
      then handle_get_contacts request context
      else if verb_beq request.method post && request.target == "/contacts"
      then handle_add_contact request context
      else if verb_beq request.method delete_ && found_at_start request.target "/contacts/"
      then handle_delete_contact request context
      else fail P 404 request "not_found"
