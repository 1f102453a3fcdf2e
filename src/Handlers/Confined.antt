-- ===== src/Handlers/Confined.antt =====
-- What the handlers touch of the world: no more than their statements for the caller.
use profile_service_cpp.Prelude.{
  String, ◌==◌, ◌&&◌, Bool, true, false, Option, ◌≡◌, refl, arith, inl, inr, Option-cases,
}
use profile_service_cpp.Prelude.Dict.{find}
use profile_service_cpp.Prelude.Text.{string_eq}
use profile_service_cpp.Platform.{Platform}
use profile_service_cpp.Effect.{◌>>=◌}
use profile_service_cpp.Effect.Keeps.{Keeps, Keeps-if, Keeps-bind-known, keeps_rules}
use profile_service_cpp.Http.{
  Verb, get, post, put, patch, delete_, verb_beq, verb_beq_iff, HttpRequest, RouteContext,
}
use profile_service_cpp.Storage.{MinioStorage}
use profile_service_cpp.Models.{Profile}
use profile_service_cpp.Database.Executor.{QueryExecutor}
use profile_service_cpp.Repository.ProfileRepository.{get_by_id}
use profile_service_cpp.Repository.Confined.{
  Confined, create-Keeps, get_by_id-Keeps, update-Keeps, update_avatar_url-Keeps,
  contacts_list-Keeps, contacts_add-Keeps, contacts_remove-Keeps, favorites_list-Keeps,
  favorites_add-Keeps, favorites_remove-Keeps, privacy_get-Keeps, privacy_update-Keeps,
  notifications_get-Keeps, notifications_upsert-Keeps,
}
use profile_service_cpp.Handlers.Common.{Handled}
use profile_service_cpp.Handlers.ProfileHandler
use profile_service_cpp.Handlers.PrivacyHandler
use profile_service_cpp.Handlers.ContactsHandler
use profile_service_cpp.Handlers.FavoritesHandler
use profile_service_cpp.Handlers.NotificationsHandler

module _ (P : Platform) (x : QueryExecutor) (Sends : Type 0) (Allowed : String → Type 0)
    (I : P.World → Type 0) (confined : Confined P x Sends Allowed I) (storage : MinioStorage)
    (q : HttpRequest) (c : RouteContext) where
  create_profile-Keeps :
      ((v : String) → Allowed v) → Keeps I (ProfileHandler.handle_create_profile P x storage q c)
  unfolding ProfileHandler.handle_create_profile
  create_profile-Keeps a =
      search (keeps_rules, create-Keeps P x Sends Allowed I confined, a) depth 8

  get_my_profile-Keeps : Keeps I (ProfileHandler.handle_get_my_profile P x storage q c)
  unfolding ProfileHandler.handle_get_my_profile
  get_my_profile-Keeps = search (keeps_rules, get_by_id-Keeps P x Sends Allowed I confined) depth 8

  get_profile_by_id-Keeps : Keeps I (ProfileHandler.handle_get_profile_by_id P x storage q c)
  unfolding ProfileHandler.handle_get_profile_by_id
  get_profile_by_id-Keeps = elim (Option-cases (find "user_id" c.path_params)) [
    | inl gone ↦ rw (gone, ProfileHandler.handle_get_profile_by_id) (search keeps_rules)
    | inr (v, found) ↦
        rw (found, ProfileHandler.handle_get_profile_by_id)
          (search (keeps_rules, get_by_id-Keeps P x Sends Allowed I confined) depth 8)
  ]

  update_failed-Keeps : (e : String) → Keeps I (ProfileHandler.update_failed P x storage q e)
  unfolding ProfileHandler.update_failed
  update_failed-Keeps e = search keeps_rules

  module _ (allowed : Allowed c.user_id) where
    -- what follows the profile of the caller may use that it is an allowed one
    own_profile-Keeps :
        (f : Profile P → Handled P)
        → ((p : Profile P) → Allowed p.user_id → Keeps I (f p))
        → Keeps I (get_by_id P x c.user_id >>= f)
    own_profile-Keeps f k =
        Keeps-bind-known (get_by_id P x c.user_id) f (λ p. Allowed p.user_id)
          (get_by_id-Keeps P x Sends Allowed I confined c.user_id)
          (λ w i p e. confined.own_profile c.user_id w p allowed e) k

    update_profile-Keeps : Keeps I (ProfileHandler.handle_update_profile P x storage q c)
    unfolding ProfileHandler.handle_update_profile
    update_profile-Keeps =
        search
          (
            own_profile-Keeps,
            keeps_rules,
            update-Keeps P x Sends Allowed I confined,
            update_failed-Keeps,
          )
          depth 14

    upload_avatar-Keeps : Keeps I (ProfileHandler.handle_upload_avatar P x storage q c)
    unfolding ProfileHandler.handle_upload_avatar
    upload_avatar-Keeps =
        search (keeps_rules, update_avatar_url-Keeps P x Sends Allowed I confined, allowed) depth 12

    delete_avatar-Keeps : Keeps I (ProfileHandler.handle_delete_avatar P x storage q c)
    unfolding ProfileHandler.handle_delete_avatar
    delete_avatar-Keeps =
        search (keeps_rules, update_avatar_url-Keeps P x Sends Allowed I confined, allowed) depth 12

    add_contact-Keeps : Keeps I (ContactsHandler.handle_add_contact P x q c)
    unfolding ContactsHandler.handle_add_contact
    add_contact-Keeps =
        search (keeps_rules, contacts_add-Keeps P x Sends Allowed I confined, allowed) depth 12

    delete_contact-Keeps : Keeps I (ContactsHandler.handle_delete_contact P x q c)
    unfolding ContactsHandler.handle_delete_contact
    delete_contact-Keeps = elim (Option-cases (find "contact_id" c.path_params)) [
      | inl gone ↦ rw (gone, ContactsHandler.handle_delete_contact) (search keeps_rules)
      | inr (k, found) ↦
          rw (found, ContactsHandler.handle_delete_contact)
            (search (keeps_rules, contacts_remove-Keeps P x Sends Allowed I confined, allowed) depth
              8)
    ]

    update_privacy-Keeps : Keeps I (PrivacyHandler.handle_update_privacy P x q c)
    unfolding PrivacyHandler.handle_update_privacy
    update_privacy-Keeps =
        search (keeps_rules, privacy_update-Keeps P x Sends Allowed I confined, allowed) depth 12

    add_favorite-Keeps : Keeps I (FavoritesHandler.handle_add_favorite P x q c)
    unfolding FavoritesHandler.handle_add_favorite
    add_favorite-Keeps = elim (Option-cases (find "chat_id" c.path_params)) [
      | inl gone ↦ rw (gone, FavoritesHandler.handle_add_favorite) (search keeps_rules)
      | inr (k, found) ↦
          rw (found, FavoritesHandler.handle_add_favorite)
            (search (keeps_rules, favorites_add-Keeps P x Sends Allowed I confined, allowed) depth
              8)
    ]

    remove_favorite-Keeps : Keeps I (FavoritesHandler.handle_remove_favorite P x q c)
    unfolding FavoritesHandler.handle_remove_favorite
    remove_favorite-Keeps = elim (Option-cases (find "chat_id" c.path_params)) [
      | inl gone ↦ rw (gone, FavoritesHandler.handle_remove_favorite) (search keeps_rules)
      | inr (k, found) ↦
          rw (found, FavoritesHandler.handle_remove_favorite)
            (search (keeps_rules, favorites_remove-Keeps P x Sends Allowed I confined, allowed)
              depth 8)
    ]

    store-Keeps :
        (k : Option String) (muted : Bool) (t : NotificationsHandler.MutedUntil P x)
        → Keeps I (NotificationsHandler.store P x q c k muted t)
    store-Keeps k muted NotificationsHandler.malformed = search keeps_rules
    store-Keeps k muted (NotificationsHandler.until t) =
        search (keeps_rules, notifications_upsert-Keeps P x Sends Allowed I confined, allowed) depth
          8

    update_notifications-Keeps : Keeps I (NotificationsHandler.handle_update_notifications P x q c)
    unfolding NotificationsHandler.handle_update_notifications
    update_notifications-Keeps = search (keeps_rules, store-Keeps) depth 12

    update_chat_notifications-Keeps :
        Keeps I (NotificationsHandler.handle_update_chat_notifications P x q c)
    unfolding NotificationsHandler.handle_update_chat_notifications
    update_chat_notifications-Keeps = elim (Option-cases (find "chat_id" c.path_params)) [
      | inl gone ↦
          rw (gone, NotificationsHandler.handle_update_chat_notifications) (search keeps_rules)
      | inr (k, found) ↦
          rw (found, NotificationsHandler.handle_update_chat_notifications)
            (search (keeps_rules, store-Keeps) depth 12)
    ]

  get_contacts-Keeps : Keeps I (ContactsHandler.handle_get_contacts P x q c)
  unfolding ContactsHandler.handle_get_contacts
  get_contacts-Keeps =
      search (keeps_rules, contacts_list-Keeps P x Sends Allowed I confined) depth 8

  get_privacy-Keeps : Keeps I (PrivacyHandler.handle_get_privacy P x q c)
  unfolding PrivacyHandler.handle_get_privacy
  get_privacy-Keeps = search (keeps_rules, privacy_get-Keeps P x Sends Allowed I confined) depth 8

  get_favorites-Keeps : Keeps I (FavoritesHandler.handle_get_favorites P x q c)
  unfolding FavoritesHandler.handle_get_favorites
  get_favorites-Keeps =
      search (keeps_rules, favorites_list-Keeps P x Sends Allowed I confined) depth 8

  get_notifications-Keeps : Keeps I (NotificationsHandler.handle_get_notifications P x q c)
  unfolding NotificationsHandler.handle_get_notifications
  get_notifications-Keeps =
      search (keeps_rules, notifications_get-Keeps P x Sends Allowed I confined) depth 8

  get_chat_notifications-Keeps :
      Keeps I (NotificationsHandler.handle_get_chat_notifications P x q c)
  unfolding NotificationsHandler.handle_get_chat_notifications
  get_chat_notifications-Keeps = elim (Option-cases (find "chat_id" c.path_params)) [
    | inl gone ↦ rw (gone, NotificationsHandler.handle_get_chat_notifications) (search keeps_rules)
    | inr (k, found) ↦
        rw (found, NotificationsHandler.handle_get_chat_notifications)
          (search (keeps_rules, notifications_get-Keeps P x Sends Allowed I confined) depth 10)
  ]

  -- The caller is an allowed owner, unless the request is a GET.
  module _ (writes : verb_beq q.method get ≡ false → Allowed c.user_id) where
    -- what a test of another verb tells
    writing :
        (v : Verb) (b : Bool)
        → verb_beq v get ≡ false
        → (verb_beq q.method v && b) ≡ true
        → Allowed c.user_id
    writing v b other e =
        writes
          (ground (arith, verb_beq_iff q.method v, verb_beq_iff q.method get, verb_beq_iff v get))

    writing_post : (b : Bool) → (verb_beq q.method post && b) ≡ true → Allowed c.user_id
    writing_post b = writing post b refl

    writing_put : (b : Bool) → (verb_beq q.method put && b) ≡ true → Allowed c.user_id
    writing_put b = writing put b refl

    writing_patch : (b : Bool) → (verb_beq q.method patch && b) ≡ true → Allowed c.user_id
    writing_patch b = writing patch b refl

    writing_delete : (b : Bool) → (verb_beq q.method delete_ && b) ≡ true → Allowed c.user_id
    writing_delete b = writing delete_ b refl

    -- the internal creation writes for whom the body names
    pub profile-Keeps :
        ((verb_beq q.method post && q.target == "/internal/profiles") ≡ true
          → (v : String) → Allowed v)
        → Keeps I (ProfileHandler.handle P x storage q c)
    unfolding ProfileHandler.handle
    profile-Keeps internal =
        Keeps-if _ _ _ (λ e. create_profile-Keeps (internal e))
          λ _.
            search
              (
                keeps_rules, get_my_profile-Keeps, update_profile-Keeps, get_profile_by_id-Keeps,
                upload_avatar-Keeps, delete_avatar-Keeps, writing_patch, writing_post,
                writing_delete,
              )
              depth 10

    pub contacts-Keeps : Keeps I (ContactsHandler.handle P x q c)
    unfolding ContactsHandler.handle
    contacts-Keeps =
        search
          (
            keeps_rules, get_contacts-Keeps, add_contact-Keeps, delete_contact-Keeps, writing_post,
            writing_delete,
          )
          depth 8

    pub privacy-Keeps : Keeps I (PrivacyHandler.handle P x q c)
    unfolding PrivacyHandler.handle
    privacy-Keeps =
        search (keeps_rules, get_privacy-Keeps, update_privacy-Keeps, writing_put) depth 8

    pub favorites-Keeps : Keeps I (FavoritesHandler.handle P x q c)
    unfolding FavoritesHandler.handle
    favorites-Keeps =
        search
          (
            keeps_rules, get_favorites-Keeps, add_favorite-Keeps, remove_favorite-Keeps,
            writing_post, writing_delete,
          )
          depth 8

    pub notifications-Keeps : Keeps I (NotificationsHandler.handle P x q c)
    unfolding NotificationsHandler.handle
    notifications-Keeps =
        search
          (
            keeps_rules, get_notifications-Keeps, get_chat_notifications-Keeps,
            update_notifications-Keeps, update_chat_notifications-Keeps, writing_put,
          )
          depth 8
