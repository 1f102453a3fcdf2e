-- ===== src/Requests/Factory.antt =====
-- src/handlers/handler_factory.cpp: which handler object serves which route.
use profile_service_cpp.Prelude.{Option, none, some}
use profile_service_cpp.Platform.{Platform}
use profile_service_cpp.Http.{HttpRequest, RouteContext, error_response}
use profile_service_cpp.Storage.{MinioStorage}
use profile_service_cpp.Database.Executor.{QueryExecutor}
use profile_service_cpp.Api.{HandlerId}
use profile_service_cpp.Handlers.Common.{Handled, fail}
use profile_service_cpp.Handlers.ProfileHandler
use profile_service_cpp.Handlers.ContactsHandler
use profile_service_cpp.Handlers.PrivacyHandler
use profile_service_cpp.Handlers.FavoritesHandler
use profile_service_cpp.Handlers.NotificationsHandler

pub data HandlerClass : Type 0 where
  profile contacts privacy favorites notifications : HandlerClass

-- `m_handlers`, as the constructor fills it
unfoldable pub handler_class : HandlerId → Option HandlerClass
handler_class HandlerId.create_profile = some profile
handler_class HandlerId.get_my_profile = some profile
handler_class HandlerId.get_profile_by_id = some profile
handler_class HandlerId.update_profile = some profile
handler_class HandlerId.upload_avatar = some profile
handler_class HandlerId.delete_avatar = some profile
handler_class HandlerId.get_contacts = some contacts
handler_class HandlerId.add_contact = some contacts
handler_class HandlerId.delete_contact = some contacts
handler_class HandlerId.get_privacy = some privacy
handler_class HandlerId.update_privacy = some privacy
handler_class HandlerId.get_favorites = some favorites
handler_class HandlerId.add_favorite = some favorites
handler_class HandlerId.remove_favorite = some favorites
handler_class HandlerId.get_notifications = some notifications
handler_class HandlerId.get_chat_notifications = some notifications
handler_class HandlerId.update_notifications = some notifications
handler_class HandlerId.update_chat_notifications = some notifications

module _ (P : Platform) (x : QueryExecutor) (storage : MinioStorage) where
  -- `handler->Handle`, by the class of the handler
  abbrev pub dispatch : HandlerClass → HttpRequest → RouteContext → Handled P
  dispatch profile = ProfileHandler.handle P x storage
  dispatch contacts = ContactsHandler.handle P x
  dispatch privacy = PrivacyHandler.handle P x
  dispatch favorites = FavoritesHandler.handle P x
  dispatch notifications = NotificationsHandler.handle P x

  unfoldable pub bind : HandlerId → HttpRequest → RouteContext → Handled P
  unfolding handler_class error_response
  bind id request context = elim (handler_class id) [
    | none ↦ fail P 501 request "handler not implemented"
    | some class ↦ dispatch class request context
  ]
