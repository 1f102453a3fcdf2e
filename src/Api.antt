-- ===== src/Api.antt =====
-- include/profile_service/api_spec.hpp and src/api_spec.cpp: the table of routes.
pub mod RouteMap
pub mod Table
pub mod Order
pub mod Constants
use profile_service_cpp.Prelude.{ℕ, String, ◌<>◌, List, [], ◌∷◌, Option, none, some}
use profile_service_cpp.Prelude.Dict.{Dict, Eq, insert}
use profile_service_cpp.Prelude.Text.{string_eq}
use profile_service_cpp.Http.{Verb, get, post, put, patch, delete_}

pub data HandlerId : Type 0 where
  create_profile get_my_profile get_profile_by_id update_profile upload_avatar : HandlerId
  delete_avatar get_contacts add_contact delete_contact get_privacy update_privacy : HandlerId
  get_favorites add_favorite remove_favorite get_notifications get_chat_notifications : HandlerId
  update_notifications update_chat_notifications : HandlerId

pub record HandlerInfo : Type 0 where
  pub method : Verb
  pub id : HandlerId
  pub scope : String

-- One call `addRoute(path, method, id, scope)`.
abbrev pub Route : Type 0
Route = String × HandlerInfo

abbrev route : String → Verb → HandlerId → String → Route
route path method id scope = (path, record { method = method; id = id; scope = scope })

-- the calls of `addRoute`, in the source's order
unfoldable pub routes : List Route
routes =
    route "/internal/profiles" post create_profile "profile:write"
    ∷ route "/me" get get_my_profile "profile:read"
    ∷ route "/me" patch update_profile "profile:write"
    ∷ route "/{user_id}" get get_profile_by_id "profile:read"
    ∷ route "/me/avatar" post upload_avatar "profile:write"
    ∷ route "/me/avatar" delete_ delete_avatar "profile:write"
    ∷ route "/me/privacy" get get_privacy "profile:read"
    ∷ route "/me/privacy" put update_privacy "profile:write"
    ∷ route "/contacts" get get_contacts "contacts:read"
    ∷ route "/contacts" post add_contact "contacts:write"
    ∷ route "/contacts/{contact_id}" delete_ delete_contact "contacts:write"
    ∷ route "/favorites" get get_favorites "favorites:read"
    ∷ route "/favorites/{chat_id}" post add_favorite "favorites:write"
    ∷ route "/favorites/{chat_id}" delete_ remove_favorite "favorites:write"
    ∷ route "/notifications" get get_notifications "notifications:read"
    ∷ route "/notifications/{chat_id}" get get_chat_notifications "notifications:read"
    ∷ route "/notifications" put update_notifications "notifications:write"
    ∷ route "/notifications/{chat_id}" put update_chat_notifications "notifications:write"
    ∷ []

-- `label` is `std::to_string(static_cast<int>(verb))`.
module _ (label : Verb → String) where
  unfoldable pub flat_key : String → Verb → String
  flat_key path method = path <> ":" <> label method

  -- `s.FlatRoutes[path + ":" + …] = {method, id, scope}`, for every call in turn
  unfoldable pub add_routes : Dict String HandlerInfo → List Route → Dict String HandlerInfo
  unfolding insert flat_key
  add_routes flat [] = flat
  add_routes flat ((path, info) ∷ rest) =
      add_routes (insert (flat_key path info.method) info flat) rest

  unfoldable pub flat_routes : Dict String HandlerInfo
  unfolding add_routes routes
  flat_routes = add_routes [] routes
