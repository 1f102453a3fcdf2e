-- ===== src/Repository/Confined.antt =====
-- What the repositories touch of the world: statements that only read, and statements that write rows of
-- owners that are allowed.
use profile_service_cpp.Prelude.{
  ℕ, zero, suc, Bool, String, ◌==◌, starts_with, true, Option, none, some, List, [], ◌∷◌, map,
  get_elem?, ◌≡◌, refl, if◌then◌else◌,
}
use profile_service_cpp.Platform.{Platform}
use profile_service_cpp.Effect.{ok, Action, raise, lift, ◌>>=◌}
use profile_service_cpp.Effect.Keeps.{
  Keeps, Keeps-bind-known, Keeps-if, Keeps-bind, Keeps-lift, Keeps-raise, Keeps-ret,
  Keeps-try_catch, keeps_rules,
}
use profile_service_cpp.Models.{Profile, Contact, PrivacySettings, NotificationSettings}
use profile_service_cpp.Mappers.{
  map_profile, map_contact, map_privacy_settings, map_notification, map_favorite,
}
use profile_service_cpp.Database.Value.{DbValue, string_value, convert_value}
use profile_service_cpp.Database.ResultSet.{PostgresResultSet, empty, get_row_at}
use profile_service_cpp.Database.Executor.{QueryExecutor, execute_select, execute_modify}
use profile_service_cpp.Repository.Rows.{push_rows, map_rows, first_row}
use profile_service_cpp.Repository.ProfileRepository
use profile_service_cpp.Repository.ContactsRepository
use profile_service_cpp.Repository.PrivacyRepository
use profile_service_cpp.Repository.FavoriteRepository
use profile_service_cpp.Repository.NotificationRepository

-- the parameter that a statement compares with the column of the owner, or stores there
abbrev pub owner : String → List String → Option String
owner query params =
    if query == ProfileRepository.update_query
    then get_elem? params 4
    else if query == ProfileRepository.update_avatar_query
    then get_elem? params 1
    else get_elem? params 0

-- `I` is kept by what reads, by what writes for an allowed owner, and by the clock, which is asked only
-- where a select has returned and so `Sends` is true; the profile that is found for an allowed owner is of
-- one.
pub record Confined (P : Platform) (x : QueryExecutor) (Sends : Type 0) (Allowed : String → Type 0)
    (I : P.World → Type 0) : Type 0 where
  pub now_kept : Sends → Keeps I P.now
  pub select_sends :
      (query : String) (p : DbValue P) (ps : List (DbValue P))
      → (w : P.World) → I w
      → (r : PostgresResultSet P) → (execute_select P x query (p ∷ ps) w).0 ≡ ok r
      → Sends
  pub select_kept :
      (query : String) (p : DbValue P) (ps : List (DbValue P))
      → starts_with query "SELECT" ≡ true
      → Keeps I (execute_select P x query (p ∷ ps))
  pub create_kept :
      (v : String)
      → Allowed v
      → Keeps I (execute_select P x ProfileRepository.create_query (string_value v ∷ []))
  pub modify_kept :
      (query : String) (p : DbValue P) (ps : List (DbValue P)) (v : String)
      → owner query (convert_value P p ∷ map (convert_value P) ps) ≡ some v
      → Allowed v
      → Keeps I (execute_modify P x query (p ∷ ps))
  pub own_profile :
      (v : String) (w : P.World) (found : Profile P)
      → Allowed v
      → (ProfileRepository.get_by_id P x v w).0 ≡ ok found
      → Allowed found.user_id

module _ (P : Platform) (x : QueryExecutor) (Sends : Type 0) (Allowed : String → Type 0)
    (I : P.World → Type 0) (confined : Confined P x Sends Allowed I) where
  open confined use {now_kept, select_sends, select_kept, create_kept, modify_kept}

  now-Keeps : Sends → Keeps I P.now
  now-Keeps = now_kept

  map_profile-Keeps : Sends → (row : Option P.Row) → Keeps I (map_profile P row)
  unfolding map_profile
  map_profile-Keeps sends row = search (keeps_rules, now-Keeps) depth 12

  map_contact-Keeps : Sends → (row : Option P.Row) → Keeps I (map_contact P row)
  unfolding map_contact
  map_contact-Keeps sends row = search (keeps_rules, now-Keeps)

  map_privacy_settings-Keeps : Sends → (row : Option P.Row) → Keeps I (map_privacy_settings P row)
  unfolding map_privacy_settings
  map_privacy_settings-Keeps sends row = search keeps_rules

  map_notification-Keeps : Sends → (row : Option P.Row) → Keeps I (map_notification P row)
  unfolding map_notification
  map_notification-Keeps sends row = search keeps_rules

  map_favorite-Keeps : Sends → (row : Option P.Row) → Keeps I (map_favorite P row)
  unfolding map_favorite
  map_favorite-Keeps sends row = search (keeps_rules, now-Keeps)

  module _ {A : Type 0} (map_row : Option P.Row → Action P.World A)
      (mapped : (row : Option P.Row) → Keeps I (map_row row)) where
    push_rows-Keeps :
        (result : PostgresResultSet P) (left i : ℕ) (found : List A)
        → Keeps I (push_rows P map_row result left i found)
    unfolding push_rows
    push_rows-Keeps result zero i found = search keeps_rules
    push_rows-Keeps result (suc left) i found =
        search (keeps_rules, mapped, push_rows-Keeps result left)

    map_rows-Keeps : (result : PostgresResultSet P) → Keeps I (map_rows P map_row result)
    unfolding map_rows
    map_rows-Keeps result = search (keeps_rules, push_rows-Keeps)

    first_row-Keeps :
        (result : PostgresResultSet P) (otherwise : Action P.World A)
        → Keeps I otherwise
        → Keeps I (first_row P map_row result otherwise)
    unfolding first_row
    first_row-Keeps result otherwise k =
        Keeps-if (empty P result) otherwise _ (λ _. k)
          (λ _.
            Keeps-bind (lift (get_row_at P result 0)) (λ row. map_row (some row)) (Keeps-lift _)
              λ row. mapped (some row))

  -- a select whose first row is mapped, and one whose rows all are
  select_first-Keeps :
      {A : Type 0} (map_row : Option P.Row → Action P.World A)
      → (Sends → (row : Option P.Row) → Keeps I (map_row row))
      → (query : String) (p : DbValue P) (ps : List (DbValue P)) (otherwise : Action P.World A)
      → starts_with query "SELECT" ≡ true
      → Keeps I otherwise
      → Keeps I
          (execute_select P x query (p ∷ ps) >>= λ result. first_row P map_row result otherwise)
  select_first-Keeps map_row mapped query p ps otherwise reads k =
      Keeps-bind-known _ _ (λ _. Sends) (select_kept query p ps reads) (select_sends query p ps)
        λ result sends. first_row-Keeps map_row (mapped sends) result otherwise k

  select_rows-Keeps :
      {A : Type 0} (map_row : Option P.Row → Action P.World A)
      → (Sends → (row : Option P.Row) → Keeps I (map_row row))
      → (query : String) (p : DbValue P) (ps : List (DbValue P)) → starts_with query "SELECT" ≡ true
      → Keeps I (execute_select P x query (p ∷ ps) >>= λ result. map_rows P map_row result)
  select_rows-Keeps map_row mapped query p ps reads =
      Keeps-bind-known _ _ (λ _. Sends) (select_kept query p ps reads) (select_sends query p ps)
        λ result sends. map_rows-Keeps map_row (mapped sends) result

  pub create-Keeps : (v : String) → Allowed v → Keeps I (ProfileRepository.create P x v)
  unfolding ProfileRepository.create
  create-Keeps v a =
      Keeps-bind-known (execute_select P x ProfileRepository.create_query (string_value v ∷ []))
        (λ result. first_row P (map_profile P) result (raise "Failed to create profile"))
        (λ _. Sends) (create_kept v a)
        (select_sends ProfileRepository.create_query (string_value v) [])
        λ result sends.
          first_row-Keeps (map_profile P) (map_profile-Keeps sends) result _ (Keeps-raise _)

  pub get_by_id-Keeps : (v : String) → Keeps I (ProfileRepository.get_by_id P x v)
  unfolding ProfileRepository.get_by_id
  get_by_id-Keeps v =
      select_first-Keeps (map_profile P) map_profile-Keeps _ _ [] _ refl (Keeps-raise _)

  pub update-Keeps : (p : Profile P) → Allowed p.user_id → Keeps I (ProfileRepository.update P x p)
  unfolding ProfileRepository.update convert_value
  update-Keeps p a =
      Keeps-try_catch _ _ (modify_kept ProfileRepository.update_query _ _ p.user_id refl a)
        λ e. Keeps-raise _

  pub update_avatar_url-Keeps :
      (v url : String) → Allowed v → Keeps I (ProfileRepository.update_avatar_url P x v url)
  unfolding ProfileRepository.update_avatar_url convert_value
  update_avatar_url-Keeps v url a = modify_kept ProfileRepository.update_avatar_query _ _ v refl a

  pub contacts_list-Keeps : (v : String) → Keeps I (ContactsRepository.list P x v)
  unfolding ContactsRepository.list
  contacts_list-Keeps v = select_rows-Keeps (map_contact P) map_contact-Keeps _ _ [] refl

  pub contacts_add-Keeps :
      (contact : Contact P)
      → Allowed contact.owner_id
      → Keeps I (ContactsRepository.add P x contact)
  unfolding ContactsRepository.add convert_value
  contacts_add-Keeps contact a =
      modify_kept ContactsRepository.add_query _ _ contact.owner_id refl a

  pub contacts_remove-Keeps :
      (v k : String) → Allowed v → Keeps I (ContactsRepository.remove P x v k)
  unfolding ContactsRepository.remove convert_value
  contacts_remove-Keeps v k a = modify_kept ContactsRepository.remove_query _ _ v refl a

  pub favorites_list-Keeps : (v : String) → Keeps I (FavoriteRepository.list P x v)
  unfolding FavoriteRepository.list
  favorites_list-Keeps v = select_rows-Keeps (map_favorite P) map_favorite-Keeps _ _ [] refl

  pub favorites_add-Keeps : (v k : String) → Allowed v → Keeps I (FavoriteRepository.add P x v k)
  unfolding FavoriteRepository.add convert_value
  favorites_add-Keeps v k a = modify_kept FavoriteRepository.add_query _ _ v refl a

  pub favorites_remove-Keeps :
      (v k : String) → Allowed v → Keeps I (FavoriteRepository.remove P x v k)
  unfolding FavoriteRepository.remove convert_value
  favorites_remove-Keeps v k a = modify_kept FavoriteRepository.remove_query _ _ v refl a

  pub privacy_get-Keeps : (v : String) → Keeps I (PrivacyRepository.get P x v)
  unfolding PrivacyRepository.get
  privacy_get-Keeps v =
      select_first-Keeps (map_privacy_settings P) map_privacy_settings-Keeps _ _ [] _ refl
        (Keeps-ret _)

  pub privacy_update-Keeps :
      (s : PrivacySettings) → Allowed s.user_id → Keeps I (PrivacyRepository.update P x s)
  unfolding PrivacyRepository.update convert_value
  privacy_update-Keeps s a = modify_kept PrivacyRepository.update_query _ _ s.user_id refl a

  pub notifications_get-Keeps :
      (v : String) (k : Option String) → Keeps I (NotificationRepository.get P x v k)
  unfolding NotificationRepository.get
  notifications_get-Keeps v none =
      select_first-Keeps (map_notification P) map_notification-Keeps _ _ [] _ refl (Keeps-ret _)
  notifications_get-Keeps v (some k) =
      select_first-Keeps (map_notification P) map_notification-Keeps _ _ (string_value k ∷ []) _
        refl (Keeps-ret _)

  upsert_fields-Keeps :
      (id u : String) (k : Option String) (m : Bool) (o : Option P.TimePoint)
      → Allowed u
      → Keeps I (
          NotificationRepository.upsert P x
            (record { id = id; user_id = u; chat_id = k; muted = m; muted_until = o }))
  unfolding NotificationRepository.upsert convert_value
  upsert_fields-Keeps id u k m none a = modify_kept NotificationRepository.upsert_query _ _ u refl a
  upsert_fields-Keeps id u k m (some t) a =
      modify_kept NotificationRepository.upsert_until_query _ _ u refl a

  pub notifications_upsert-Keeps :
      (s : NotificationSettings P)
      → Allowed s.user_id
      → Keeps I (NotificationRepository.upsert P x s)
  notifications_upsert-Keeps s a =
      upsert_fields-Keeps s.id s.user_id s.chat_id s.muted s.muted_until a
