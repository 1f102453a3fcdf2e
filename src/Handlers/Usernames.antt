-- ===== src/Handlers/Usernames.antt =====
-- `HandleUpdateProfile` over a server with the table `profiles`: users without a username.
use profile_service_cpp.Prelude.{
  String, ◌==◌, true, false, Option, none, some, [], ◌∷◌, value_or, ◌≡◌, ◌∙◌, ap, arith,
}
use profile_service_cpp.Platform.{Platform}
use profile_service_cpp.Effect.{ok, throw}
use profile_service_cpp.Models.{Profile}
use profile_service_cpp.Http.{HttpRequest, RouteContext, error_response}
use profile_service_cpp.Storage.{MinioStorage}
use profile_service_cpp.Database.Value.{string_value, convert_value}
use profile_service_cpp.Repository.Sql.{open_executor, execute_modify-refused}
use profile_service_cpp.Repository.ProfileRepository.{update_query}
use profile_service_cpp.Repository.ProfileRepository.Table.{ProfileTable, StoredProfile}
use profile_service_cpp.Repository.ProfileRepository.Runs.{
  profile_of, after_get, get_lem, get_stored, get_open,
}
use profile_service_cpp.Handlers.Common.{read_field}
use profile_service_cpp.Handlers.ProfileHandler.{handle_update_profile}
use profile_service_cpp.Handlers.Profiles.{
  changed_profile, store_profile, handle_update_profile_refused,
}

module _ (P : Platform) (table : ProfileTable P) where
  open table use {server, stored}

  -- a statement that would give a user the username of another
  store_clashes :
      (p : Profile P) (v : String) (r s : StoredProfile) (w : P.World)
      → P.is_open w ≡ true
      → stored w p.user_id ≡ some r
      → stored w v ≡ some s
      → s.username ≡ some (value_or p.username "")
      → (p.user_id == v) ≡ false
      → (e : String) × (w' : P.World) × (store_profile P (open_executor P server) p w
          ≡ (throw e, w'))
  unfolding convert_value
  store_clashes p v r s w h found other taken differ =
      let (e, thrown) =
        table.unique_law (server.begun w) p.user_id (value_or p.first_name "")
          (value_or p.last_name "") (value_or p.username "") (value_or p.bio "") v r s
          (server.begun_open w h) (table.begun_stored w p.user_id ∙ found)
          (table.begun_stored w v ∙ other) taken differ in
      execute_modify-refused P server update_query (string_value (value_or p.first_name ""))
        (string_value (value_or p.last_name "")
          ∷ string_value (value_or p.username "")
          ∷ string_value (value_or p.bio "")
          ∷ string_value p.user_id
          ∷ [])
        e w h thrown

  -- Over an open connection to such a table, where another user's row has the empty username, `PATCH /me` of a
  -- user whose row has no username, with a body that names none and whose other texts can be read, is
  -- answered with 409 and "username already taken".
  pub unnamed_clash :
      (storage : MinioStorage) (q : HttpRequest) (c : RouteContext) (j : P.Json)
      → (first_name last_name bio : Option String) (v : String) (r s : StoredProfile) (w : P.World)
      → P.is_open w ≡ true
      → stored w c.user_id ≡ some r
      → r.username ≡ none
      → stored w v ≡ some s
      → s.username ≡ some ""
      → (c.user_id == v) ≡ false
      → P.parse q.body ≡ ok j
      → P.contains j "username" ≡ false
      → read_field P j "first_name" r.first_name ≡ ok first_name
      → read_field P j "last_name" r.last_name ≡ ok last_name
      → read_field P j "bio" r.bio ≡ ok bio
      → (handle_update_profile P (open_executor P server) storage q c w).0
        ≡ ok (error_response 409 q.version "username already taken")
  unnamed_clash storage q c j first_name last_name bio v r s w h found nameless other empty differ
        parsed absent h1 h2 h4 =
      let u = c.user_id in
      let profile = profile_of P table u r (after_get P table u w) in
      let w1 = table.ticked (table.ticked (after_get P table u w)) in
      let (e, w2, refused) =
        store_clashes (changed_profile P profile first_name last_name none bio) v r s w1
          (get_open P table u w h) (get_stored P table u u w ∙ found)
          (get_stored P table u v w ∙ other) empty differ in
      let unread : read_field P j "username" r.username ≡ ok none = ground arith in
      ap (λ t. t.0)
        (handle_update_profile_refused P (open_executor P server) storage q c j profile first_name
          last_name none bio e w w1 w2 parsed (get_lem P table u r w h found) h1 h2 unread h4
          refused)
