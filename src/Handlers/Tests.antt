-- ===== src/Handlers/Tests.antt =====
-- Handlers on a concrete platform.
use profile_service_cpp.Prelude.{String, none, some, List, [], ◌∷◌, ◌≡◌, refl}
use profile_service_cpp.Effect.{ok, throw}
use profile_service_cpp.Models.{Profile}
use profile_service_cpp.Http.{patch, RouteContext, error_response}
use profile_service_cpp.Mappers.{map_profile}
use profile_service_cpp.Database.Executor.{execute_select, execute_modify}
use profile_service_cpp.Repository.Rows.{first_row}
use profile_service_cpp.Repository.ProfileRepository.{get_by_id, get_by_id_query, update_query}
use profile_service_cpp.Handlers.ProfileHandler.{handle_update_profile}
use profile_service_cpp.Handlers.Profiles.{
  changed_profile, handle_update_profile_refused, store_profile,
}
use profile_service_cpp.Bench.{bench, executor, storage, request, quoted, field, null}

abbrev context : RouteContext
context = record { path_params = []; user_id = "alice" }

abbrev stored : Profile bench
stored = record {
  user_id = "";
  first_name = some "";
  last_name = some "";
  username = some "";
  bio = some "";
  avatar_url = some "";
  last_seen_at = none;
  created_at = 0;
  updated_at = 0;
}

abbrev after_select : List String
after_select = "commit" ∷ get_by_id_query ∷ []

abbrev after_update : List String
after_update = "abort" ∷ update_query ∷ after_select

found : get_by_id bench executor "alice" [] ≡ (ok stored, after_select)
unfolding get_by_id execute_select first_row map_profile
found = refl

refused :
    store_profile bench executor
      (changed_profile bench stored (some "") (some "") (some "") (some ""))
      after_select
    ≡ (throw "refused", after_update)
unfolding execute_modify
refused = refl

handle_update_profile_refused_example :
    handle_update_profile bench executor storage (request patch "/me" "alice" "x") context []
    ≡ (ok (error_response 409 11 "username already taken"), after_update)
handle_update_profile_refused_example =
    handle_update_profile_refused bench executor storage (request patch "/me" "alice" "x") context
      (field null "user_id" (quoted "x")) stored (some "") (some "") (some "") (some "") "refused"
      [] after_select after_update refl found refl refl refl refl refused
