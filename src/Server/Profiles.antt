-- ===== src/Server/Profiles.antt =====
-- The profile of a user from one request to the next, through the whole server.
use profile_service_cpp.Prelude.{
  String, true, Option, some, value_or, ◌≡◌, ◌≢◌, ◌∙◌, ap, refl, arith, [], ◌∷◌, false,
}
use profile_service_cpp.Platform.{Platform}
use profile_service_cpp.Effect.{ok, ◌>>=◌}
use profile_service_cpp.Effect.Laws.{bind-ok}
use profile_service_cpp.Http.{Verb, get, patch, HttpRequest, RouteContext, json_response}
use profile_service_cpp.Models.{Profile}
use profile_service_cpp.Api.{HandlerId}
use profile_service_cpp.Storage.{MinioStorage}
use profile_service_cpp.Handlers.Common.{object, read_field}
use profile_service_cpp.Handlers.ProfileHandler.{
  profile_fields, handle_get_my_profile, handle_update_profile,
}
use profile_service_cpp.Handlers.Profiles.{changed_profile}
use profile_service_cpp.Database.Executor.{QueryExecutor}
use profile_service_cpp.Repository.ProfileRepository.{get_by_id, update}
use profile_service_cpp.Repository.ProfileRepository.Table.{StoredProfile, ProfileTable}
use profile_service_cpp.Repository.ProfileRepository.Runs.{
  profile_of, after_get, after_update, get_lem, get_open, get_stored, get_fits, update_lem,
  after_update_open, after_update_stored, sent_texts,
}
use profile_service_cpp.Repository.Sql.{open_executor}
use profile_service_cpp.Requests.Routing.{extract_path_params}
use profile_service_cpp.Requests.Serving.{served}
use profile_service_cpp.Prelude.Text.{found_at_start, substr}
use profile_service_cpp.Requests.Paths.{fresh, handle-at}
use profile_service_cpp.Requests.RequestManager.{extract_user_id}
use profile_service_cpp.Server.QueryManager.{initialize_storage}
use profile_service_cpp.Server.ServerImpl.{Endpoint, handle}
use profile_service_cpp.Server.ServerImpl.Laws.{ready}

serves_change : served patch "/me" ≡ some HandlerId.update_profile
unfolding served
serves_change = refl

serves_own : served get "/me" ≡ some HandlerId.get_my_profile
unfolding served
serves_own = refl

extract_path_params_lem : (u : String) → extract_path_params "/me" (fresh u) ≡ fresh u
unfolding extract_path_params found_at_start substr
extract_path_params_lem u = refl

-- The JSON object of a profile with these texts, an absent one as the empty text.
abbrev pub shown :
    (P : Platform)
    → String
    → Option String
    → Option String
    → Option String
    → Option String
    → Option String
    → P.Json
shown P u f l n b a =
    let j1 = P.assign P.null "user_id" (P.of_string u) in
    let j2 = P.assign j1 "first_name" (P.of_string (value_or f "")) in
    let j3 = P.assign j2 "last_name" (P.of_string (value_or l "")) in
    let j4 = P.assign j3 "username" (P.of_string (value_or n "")) in
    let j5 = P.assign j4 "bio" (P.of_string (value_or b "")) in
    P.assign j5 "avatar_url" (P.of_string (value_or a ""))

-- the same with the two time stamps
abbrev pub stamped : (P : Platform) → P.Json → P.TimePoint → P.TimePoint → P.Json
stamped P j s t =
    P.assign (P.assign j "created_at" (P.of_int64 (P.seconds s))) "updated_at"
      (P.of_int64 (P.seconds t))

-- What a text becomes by a body: the body's, where it has the key with a text, and the old one where it has
-- not the key.
pub data Merged (P : Platform) (j : P.Json) (key : String) (old : Option String)
    : Option String → Type 0 where
  named :
      {v : P.Json} {s : String}
      → P.contains j key ≡ true
      → P.at j key ≡ ok v
      → P.get_string v ≡ ok s
      → Merged P j key old (some s)
  kept : P.contains j key ≡ false → Merged P j key old old

read_field-Merged :
    (P : Platform) (j : P.Json) (key : String) (old new : Option String)
    → Merged P j key old new
    → read_field P j key old ≡ ok new
read_field-Merged P j key old _ (named h k l) = ground arith
read_field-Merged P j key old _ (kept h) = ground arith

module _ (P : Platform) (x : QueryExecutor) (storage : MinioStorage) (q : HttpRequest)
    (c : RouteContext) where
  pub handle_update_profile_done :
      {j : P.Json} {profile : Profile P} {f l n b : Option String} {body : String} (w : P.World)
      {w1 w2 : P.World}
      → P.parse q.body ≡ ok j
      → get_by_id P x c.user_id w ≡ (ok profile, w1)
      → read_field P j "first_name" profile.first_name ≡ ok f
      → read_field P j "last_name" profile.last_name ≡ ok l
      → read_field P j "username" profile.username ≡ ok n
      → read_field P j "bio" profile.bio ≡ ok b
      → update P x (changed_profile P profile f l n b) w1 ≡ (ok tt, w2)
      → P.dump (object P (profile_fields P x storage (changed_profile P profile f l n b) []))
        ≡ ok body
      → handle_update_profile P x storage q c w ≡ (ok (json_response 200 q.version body), w2)
  unfolding handle_update_profile
  handle_update_profile_done w h1 h2 h3 h4 h5 h6 h7 h8 = ground arith

  handle_get_my_profile_done :
      {profile : Profile P} {body : String} (w : P.World) {w' : P.World}
      → get_by_id P x c.user_id w ≡ (ok profile, w')
      → P.dump (
          object P (
            profile_fields P x storage profile (
              ("created_at", P.of_int64 (P.seconds profile.created_at))
              ∷ ("updated_at", P.of_int64 (P.seconds profile.updated_at))
              ∷ [])))
        ≡ ok body
      → handle_get_my_profile P x storage q c w ≡ (ok (json_response 200 q.version body), w')
  unfolding handle_get_my_profile
  handle_get_my_profile_done w h1 h2 = ground arith

module _ (P : Platform) (table : ProfileTable P) (label : Verb → String)
    (label_injective : (a b : Verb) → label a ≡ label b → a ≡ b) (endpoint : Endpoint) where
  abbrev executor : QueryExecutor
  executor = open_executor P table.server

  pub patch_profile :
      (q : HttpRequest) (u : String)
      → q.method ≡ patch
      → q.target ≡ "/me"
      → extract_user_id q ≡ u
      → u ≢ ""
      → handle P (ready P label endpoint) q
        ≡ handle_update_profile P executor (initialize_storage P) q (fresh u)
  unfolding handle
  patch_profile q u m t by_u known =
      handle-at P executor (initialize_storage P) label label_injective q patch "/me" u
        HandlerId.update_profile serves_change m t by_u known
      ∙ ap (handle_update_profile P executor (initialize_storage P) q) (extract_path_params_lem u)

  get_profile :
      (q : HttpRequest) (u : String)
      → q.method ≡ get
      → q.target ≡ "/me"
      → extract_user_id q ≡ u
      → u ≢ ""
      → handle P (ready P label endpoint) q
        ≡ handle_get_my_profile P executor (initialize_storage P) q (fresh u)
  unfolding handle
  get_profile q u m t by_u known =
      handle-at P executor (initialize_storage P) label label_injective q get "/me" u
        HandlerId.get_my_profile serves_own m t by_u known
      ∙ ap (handle_get_my_profile P executor (initialize_storage P) q) (extract_path_params_lem u)

  -- Over an open connection to the table of profiles, the server as `main` starts it, a `PATCH /me` of a user
  -- who has a profile, with a body whose texts can be read and fit the table, is answered with 200 and the
  -- changed profile, and a `GET /me` of the same user after it with 200, the same six fields and two time
  -- stamps, where distinct verbs have distinct texts and both answers have a JSON text. A text that the body
  -- does not name is the stored one, the avatar is the stored one, and an absent text is the empty one.
  pub patch-get_profile :
      (q r : HttpRequest) (u : String) (j : P.Json) (row : StoredProfile) (f l n b : Option String)
      → (changed : String) (found : P.TimePoint → P.TimePoint → String) (w : P.World)
      → q.method ≡ patch
      → r.method ≡ get
      → q.target ≡ "/me"
      → r.target ≡ "/me"
      → extract_user_id q ≡ u
      → extract_user_id r ≡ u
      → u ≢ ""
      → P.parse q.body ≡ ok j
      → Merged P j "first_name" row.first_name f
      → Merged P j "last_name" row.last_name l
      → Merged P j "username" row.username n
      → Merged P j "bio" row.bio b
      → P.dump (shown P u f l n b row.avatar_url) ≡ ok changed
      → ((s t : P.TimePoint)
          → P.dump (stamped P (shown P u f l n b row.avatar_url) s t) ≡ ok (found s t))
      → P.is_open w ≡ true
      → table.stored w u ≡ some row
      → table.fits w u (value_or f "") (value_or l "") (value_or n "") (value_or b "") ≡ true
      → ((handle P (ready P label endpoint) q w).0 ≡ ok (json_response 200 q.version changed))
        × (s : P.TimePoint) × (t : P.TimePoint) × (((handle P (ready P label endpoint) q >>= λ _.
                handle P (ready P label endpoint) r)
              w).0
            ≡ ok (json_response 200 r.version (found s t)))
  patch-get_profile q r u j row f l n b changed found w qm rm qt rt qu ru known h1 h2 h3 h4 h5 h6 h7
        opened known_row fitting =
      let w1 = table.ticked (table.ticked (after_get P table u w)) in
      let profile = changed_profile P (profile_of P table u row (after_get P table u w)) f l n b in
      let read = get_stored P table u u w ∙ known_row in
      let answered =
        ap (λ g. g w) (patch_profile q u qm qt qu known)
        ∙ handle_update_profile_done P executor (initialize_storage P) q (fresh u) w h1
            (get_lem P table u row w opened known_row)
            (read_field-Merged P j "first_name" row.first_name f h2)
            (read_field-Merged P j "last_name" row.last_name l h3)
            (read_field-Merged P j "username" row.username n h4)
            (read_field-Merged P j "bio" row.bio b h5)
            (update_lem P table profile w1 (get_open P table u w opened)
              (get_fits P table u u _ _ _ _ w ∙ fitting))
            h6 in
      let w2 = after_update P table profile w1 in
      let again =
        ap (λ g. g w2) (get_profile r u rm rt ru known)
        ∙ handle_get_my_profile_done P executor (initialize_storage P) r (fresh u) w2
            (get_lem P table u (sent_texts P table profile row) w2
              (after_update_open P table profile w1 (get_open P table u w opened))
              (after_update_stored P table profile row w1 read))
            (h7 (table.time (after_get P table u w2))
              (table.time (table.ticked (after_get P table u w2)))) in
      (
        ap (λ t. t.0) answered,
        table.time (after_get P table u w2),
        table.time (table.ticked (after_get P table u w2)),
        ap (λ t. t.0)
            (bind-ok (handle P (ready P label endpoint) q)
                (λ _. handle P (ready P label endpoint) r) w answered
              ∙ again),
      )
