-- ===== src/Requests/Dispatch.antt =====
-- The handler objects find the function that a route's id names: their own tests of verb and target
-- agree with the table.
use profile_service_cpp.Prelude.{String, ◌==◌, starts_with, true, false, some, ◌≡◌, arith}
use profile_service_cpp.Prelude.Text.Laws.{found_at_start-eq}
use profile_service_cpp.Platform.{Platform}
use profile_service_cpp.Http.{HttpRequest, RouteContext}
use profile_service_cpp.Storage.{MinioStorage}
use profile_service_cpp.Database.Executor.{QueryExecutor}
use profile_service_cpp.Api.{HandlerId}
use profile_service_cpp.Handlers.Common.{Handled}
use profile_service_cpp.Handlers.ProfileHandler
use profile_service_cpp.Handlers.ContactsHandler
use profile_service_cpp.Handlers.PrivacyHandler
use profile_service_cpp.Handlers.FavoritesHandler
use profile_service_cpp.Handlers.NotificationsHandler
use profile_service_cpp.Requests.Serving.{names_user}
use profile_service_cpp.Requests.Serving.{served}
use profile_service_cpp.Requests.Factory.{bind}

user_path-facts :
    (t : String) → names_user t ≡ true → ((t == "/me") ≡ false) × (starts_with t "/" ≡ true)
unfolding names_user
user_path-facts t h = ground arith

module _ (P : Platform) (x : QueryExecutor) (storage : MinioStorage) where
  -- The function that an id names.
  abbrev pub named : HandlerId → HttpRequest → RouteContext → Handled P
  named HandlerId.create_profile = ProfileHandler.handle_create_profile P x storage
  named HandlerId.get_my_profile = ProfileHandler.handle_get_my_profile P x storage
  named HandlerId.get_profile_by_id = ProfileHandler.handle_get_profile_by_id P x storage
  named HandlerId.update_profile = ProfileHandler.handle_update_profile P x storage
  named HandlerId.upload_avatar = ProfileHandler.handle_upload_avatar P x storage
  named HandlerId.delete_avatar = ProfileHandler.handle_delete_avatar P x storage
  named HandlerId.get_contacts = ContactsHandler.handle_get_contacts P x
  named HandlerId.add_contact = ContactsHandler.handle_add_contact P x
  named HandlerId.delete_contact = ContactsHandler.handle_delete_contact P x
  named HandlerId.get_privacy = PrivacyHandler.handle_get_privacy P x
  named HandlerId.update_privacy = PrivacyHandler.handle_update_privacy P x
  named HandlerId.get_favorites = FavoritesHandler.handle_get_favorites P x
  named HandlerId.add_favorite = FavoritesHandler.handle_add_favorite P x
  named HandlerId.remove_favorite = FavoritesHandler.handle_remove_favorite P x
  named HandlerId.get_notifications = NotificationsHandler.handle_get_notifications P x
  named HandlerId.get_chat_notifications = NotificationsHandler.handle_get_chat_notifications P x
  named HandlerId.update_notifications = NotificationsHandler.handle_update_notifications P x
  named HandlerId.update_chat_notifications =
      NotificationsHandler.handle_update_chat_notifications P x

  -- Every route that is served goes to the function that its id names: the handler object's own tests
  -- of verb and target choose that function, and never its answer `not_found`.
  pub bind-eq-named :
      (id : HandlerId) (r : HttpRequest) (c : RouteContext)
      → served r.method r.target ≡ some id
      → bind P x storage id r c ≡ named id r c
  unfolding served bind ProfileHandler.handle ContactsHandler.handle PrivacyHandler.handle
      FavoritesHandler.handle NotificationsHandler.handle
  bind-eq-named HandlerId.create_profile r c h = ground arith
  bind-eq-named HandlerId.get_my_profile r c h = ground arith
  bind-eq-named HandlerId.get_profile_by_id r c h =
      ground (arith, found_at_start-eq r.target "/" "", user_path-facts r.target)
  bind-eq-named HandlerId.update_profile r c h = ground arith
  bind-eq-named HandlerId.upload_avatar r c h = ground arith
  bind-eq-named HandlerId.delete_avatar r c h = ground arith
  bind-eq-named HandlerId.get_contacts r c h = ground arith
  bind-eq-named HandlerId.add_contact r c h = ground arith
  bind-eq-named HandlerId.delete_contact r c h =
      ground (arith, found_at_start-eq r.target "/" "contacts/")
  bind-eq-named HandlerId.get_privacy r c h = ground arith
  bind-eq-named HandlerId.update_privacy r c h = ground arith
  bind-eq-named HandlerId.get_favorites r c h = ground arith
  bind-eq-named HandlerId.add_favorite r c h =
      ground (arith, found_at_start-eq r.target "/" "favorites/")
  bind-eq-named HandlerId.remove_favorite r c h =
      ground (arith, found_at_start-eq r.target "/" "favorites/")
  bind-eq-named HandlerId.get_notifications r c h = ground arith
  bind-eq-named HandlerId.get_chat_notifications r c h =
      ground (arith, found_at_start-eq r.target "/" "notifications/")
  bind-eq-named HandlerId.update_notifications r c h = ground arith
  bind-eq-named HandlerId.update_chat_notifications r c h =
      ground (arith, found_at_start-eq r.target "/" "notifications/")
