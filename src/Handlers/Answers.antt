-- ===== src/Handlers/Answers.antt =====
-- No handler lets an exception out: each answers, whatever the platform does.
use profile_service_cpp.Prelude.{ℕ, String, ◌<>◌, true, false, ◌≡◌, refl, Bool, if◌then◌else◌}
use profile_service_cpp.Platform.{Platform}
use profile_service_cpp.Effect.{Result, ok, throw, try_catch}
use profile_service_cpp.Http.{HttpRequest, HttpResponse, RouteContext}
use profile_service_cpp.Storage.{MinioStorage}
use profile_service_cpp.Database.Executor.{QueryExecutor}
use profile_service_cpp.Handlers.Common.{Handled, fail}
use profile_service_cpp.Handlers.PrivacyHandler
use profile_service_cpp.Handlers.ProfileHandler
use profile_service_cpp.Handlers.ContactsHandler
use profile_service_cpp.Handlers.FavoritesHandler
use profile_service_cpp.Handlers.NotificationsHandler

module _ (P : Platform) where
  abbrev pub Answers : Handled P → Type 0
  Answers m = (w : P.World) → (r : HttpResponse) × ((m w).0 ≡ ok r)

  caught :
      (h : String → Handled P)
      → ((e : String) → Answers (h e))
      → (r : Result HttpResponse) (w : P.World)
      → (a : HttpResponse) × ((elim r as (λ _. Result HttpResponse × P.World) [
        | ok a ↦ (ok a, w)
        | throw e ↦ h e w
      ]).0
          ≡ ok a)
  caught h k (ok a) w = (a, refl)
  caught h k (throw e) w = k e w

  pub try_catch-Answers :
      (m : Handled P) (h : String → Handled P)
      → ((e : String) → Answers (h e))
      → Answers (try_catch m h)
  try_catch-Answers m h k w = caught h k (m w).0 (m w).1

  fail-Answers : (status : ℕ) (q : HttpRequest) (e : String) → Answers (fail P status q e)
  fail-Answers status q e w = (_, refl)

  pub if-Answers :
      (b : Bool) (m n : Handled P) → Answers m → Answers n → Answers (if b then m else n)
  if-Answers true m n hm hn = hm
  if-Answers false m n hm hn = hn

  module _ (x : QueryExecutor) (storage : MinioStorage) (q : HttpRequest) (c : RouteContext) where
    create_profile-Answers : Answers (ProfileHandler.handle_create_profile P x storage q c)
    unfolding ProfileHandler.handle_create_profile
    create_profile-Answers =
        try_catch-Answers _ (λ _. fail P 500 q "create failed")
          (λ _. fail-Answers 500 q "create failed")

    get_my_profile-Answers : Answers (ProfileHandler.handle_get_my_profile P x storage q c)
    unfolding ProfileHandler.handle_get_my_profile
    get_my_profile-Answers =
        try_catch-Answers _ (λ _. fail P 404 q "profile not found")
          (λ _. fail-Answers 404 q "profile not found")

    get_profile_by_id-Answers : Answers (ProfileHandler.handle_get_profile_by_id P x storage q c)
    unfolding ProfileHandler.handle_get_profile_by_id
    get_profile_by_id-Answers =
        try_catch-Answers _ (λ _. fail P 404 q "profile not found")
          (λ _. fail-Answers 404 q "profile not found")

    update_failed-Answers : (e : String) → Answers (ProfileHandler.update_failed P x storage q e)
    unfolding ProfileHandler.update_failed
    update_failed-Answers e =
        if-Answers _ _ _ (fail-Answers 409 q "username already taken")
          (fail-Answers 500 q "update failed")

    update_profile-Answers : Answers (ProfileHandler.handle_update_profile P x storage q c)
    unfolding ProfileHandler.handle_update_profile
    update_profile-Answers =
        try_catch-Answers _ (ProfileHandler.update_failed P x storage q) update_failed-Answers

    upload_avatar-Answers : Answers (ProfileHandler.handle_upload_avatar P x storage q c)
    unfolding ProfileHandler.handle_upload_avatar
    upload_avatar-Answers =
        try_catch-Answers _ (λ e. fail P 500 q ("upload failed: " <> e)) (λ e. fail-Answers 500 q _)

    delete_avatar-Answers : Answers (ProfileHandler.handle_delete_avatar P x storage q c)
    unfolding ProfileHandler.handle_delete_avatar
    delete_avatar-Answers =
        try_catch-Answers _ (λ _. fail P 500 q "delete failed")
          (λ _. fail-Answers 500 q "delete failed")

    pub profile-Answers : Answers (ProfileHandler.handle P x storage q c)
    unfolding ProfileHandler.handle
    profile-Answers = if-Answers _ _ _ create_profile-Answers (
        if-Answers _ _ _ get_my_profile-Answers (
          if-Answers _ _ _ update_profile-Answers (
            if-Answers _ _ _ get_profile_by_id-Answers (
              if-Answers _ _ _ upload_avatar-Answers
                (if-Answers _ _ _ delete_avatar-Answers (fail-Answers 404 q "not_found"))))))

    get_contacts-Answers : Answers (ContactsHandler.handle_get_contacts P x q c)
    unfolding ContactsHandler.handle_get_contacts
    get_contacts-Answers =
        try_catch-Answers _ (λ _. fail P 404 q "contacts not found")
          (λ _. fail-Answers 404 q "contacts not found")

    add_contact-Answers : Answers (ContactsHandler.handle_add_contact P x q c)
    unfolding ContactsHandler.handle_add_contact
    add_contact-Answers =
        try_catch-Answers _ (λ _. fail P 409 q "failed to add contact")
          (λ _. fail-Answers 409 q "failed to add contact")

    delete_contact-Answers : Answers (ContactsHandler.handle_delete_contact P x q c)
    unfolding ContactsHandler.handle_delete_contact
    delete_contact-Answers =
        try_catch-Answers _ (λ _. fail P 404 q "contact not found")
          (λ _. fail-Answers 404 q "contact not found")

    pub contacts-Answers : Answers (ContactsHandler.handle P x q c)
    unfolding ContactsHandler.handle
    contacts-Answers = if-Answers _ _ _ get_contacts-Answers (
        if-Answers _ _ _ add_contact-Answers
          (if-Answers _ _ _ delete_contact-Answers (fail-Answers 404 q "not_found")))

    get_privacy-Answers : Answers (PrivacyHandler.handle_get_privacy P x q c)
    unfolding PrivacyHandler.handle_get_privacy
    get_privacy-Answers =
        try_catch-Answers _ (λ _. fail P 500 q "failed to get privacy settings")
          (λ _. fail-Answers 500 q "failed to get privacy settings")

    update_privacy-Answers : Answers (PrivacyHandler.handle_update_privacy P x q c)
    unfolding PrivacyHandler.handle_update_privacy
    update_privacy-Answers =
        try_catch-Answers _ (λ _. fail P 500 q "update failed")
          (λ _. fail-Answers 500 q "update failed")

    pub privacy-Answers : Answers (PrivacyHandler.handle P x q c)
    unfolding PrivacyHandler.handle
    privacy-Answers =
        if-Answers _ _ _ get_privacy-Answers
          (if-Answers _ _ _ update_privacy-Answers (fail-Answers 404 q "not_found"))

    get_favorites-Answers : Answers (FavoritesHandler.handle_get_favorites P x q c)
    unfolding FavoritesHandler.handle_get_favorites
    get_favorites-Answers =
        try_catch-Answers _ (λ _. fail P 500 q "failed to get favorites")
          (λ _. fail-Answers 500 q "failed to get favorites")

    add_favorite-Answers : Answers (FavoritesHandler.handle_add_favorite P x q c)
    unfolding FavoritesHandler.handle_add_favorite
    add_favorite-Answers =
        try_catch-Answers _ (λ _. fail P 500 q "failed to add favorite")
          (λ _. fail-Answers 500 q "failed to add favorite")

    remove_favorite-Answers : Answers (FavoritesHandler.handle_remove_favorite P x q c)
    unfolding FavoritesHandler.handle_remove_favorite
    remove_favorite-Answers =
        try_catch-Answers _ (λ _. fail P 500 q "failed to remove favorite")
          (λ _. fail-Answers 500 q "failed to remove favorite")

    pub favorites-Answers : Answers (FavoritesHandler.handle P x q c)
    unfolding FavoritesHandler.handle
    favorites-Answers = if-Answers _ _ _ get_favorites-Answers (
        if-Answers _ _ _ add_favorite-Answers
          (if-Answers _ _ _ remove_favorite-Answers (fail-Answers 404 q "not_found")))

    get_notifications-Answers : Answers (NotificationsHandler.handle_get_notifications P x q c)
    unfolding NotificationsHandler.handle_get_notifications
    get_notifications-Answers =
        try_catch-Answers _ (λ _. fail P 500 q "failed to get settings")
          (λ _. fail-Answers 500 q "failed to get settings")

    get_chat_notifications-Answers :
        Answers (NotificationsHandler.handle_get_chat_notifications P x q c)
    unfolding NotificationsHandler.handle_get_chat_notifications
    get_chat_notifications-Answers =
        try_catch-Answers _ (λ _. fail P 500 q "failed to get settings")
          (λ _. fail-Answers 500 q "failed to get settings")

    update_notifications-Answers :
        Answers (NotificationsHandler.handle_update_notifications P x q c)
    unfolding NotificationsHandler.handle_update_notifications
    update_notifications-Answers =
        try_catch-Answers _ (λ e. fail P 400 q e) (λ e. fail-Answers 400 q e)

    update_chat_notifications-Answers :
        Answers (NotificationsHandler.handle_update_chat_notifications P x q c)
    unfolding NotificationsHandler.handle_update_chat_notifications
    update_chat_notifications-Answers =
        try_catch-Answers _ (λ e. fail P 400 q e) (λ e. fail-Answers 400 q e)

    pub notifications-Answers : Answers (NotificationsHandler.handle P x q c)
    unfolding NotificationsHandler.handle
    notifications-Answers = if-Answers _ _ _ get_notifications-Answers (
        if-Answers _ _ _ get_chat_notifications-Answers (
          if-Answers _ _ _ update_notifications-Answers
            (if-Answers _ _ _ update_chat_notifications-Answers (fail-Answers 404 q "not_found"))))
