-- ===== src/Handlers/Profiles.antt =====
-- What `HandleUpdateProfile` and the avatar handlers answer when the database refuses.
use profile_service_cpp.Prelude.{String, Option, [], ◌∷◌, value_or, ◌≡◌, refl, arith}
use profile_service_cpp.Platform.{Platform}
use profile_service_cpp.Effect.{ok, throw, Action}
use profile_service_cpp.Models.{Profile}
use profile_service_cpp.Http.{HttpRequest, RouteContext, error_response}
use profile_service_cpp.Storage.{MinioStorage}
use profile_service_cpp.Database.Value.{string_value}
use profile_service_cpp.Database.Executor.{QueryExecutor, execute_modify}
use profile_service_cpp.Repository.ProfileRepository.{update_query, get_by_id, update}
use profile_service_cpp.Handlers.Common.{read_field}
use profile_service_cpp.Handlers.ProfileHandler.{update_failed, handle_update_profile}

-- the profile with the four texts that the body may change
abbrev pub changed_profile :
    (P : Platform)
    → Profile P
    → Option String
    → Option String
    → Option String
    → Option String
    → Profile P
changed_profile P profile first_name last_name username bio = record profile {
  first_name = first_name;
  last_name = last_name;
  username = username;
  bio = bio;
}

module _ (P : Platform) (x : QueryExecutor) where
  -- the statement that stores a profile, with its parameters
  abbrev pub store_profile : Profile P → Action P.World (Unit {0})
  store_profile profile = execute_modify P x update_query (
      string_value (value_or profile.first_name "")
      ∷ string_value (value_or profile.last_name "")
      ∷ string_value (value_or profile.username "")
      ∷ string_value (value_or profile.bio "")
      ∷ string_value profile.user_id
      ∷ [])

  update_refused :
      (profile : Profile P) (e : String) (w w' : P.World)
      → store_profile profile w ≡ (throw e, w')
      → update P x profile w ≡ (throw "username already taken", w')
  unfolding update
  update_refused profile e w w' h = ground arith

module _ (P : Platform) (x : QueryExecutor) (storage : MinioStorage) (q : HttpRequest)
    (c : RouteContext) where
  update_failed_taken :
      (w : P.World)
      → update_failed P x storage q "username already taken" w
        ≡ (ok (error_response 409 q.version "username already taken"), w)
  unfolding update_failed
  update_failed_taken w = refl

  -- Where the body can be read and the caller has a profile, every refusal of the statement that stores it
  -- is answered with 409 and "username already taken", whatever the refusal was.
  pub handle_update_profile_refused :
      (j : P.Json) (profile : Profile P) (first_name last_name username bio : Option String)
      → (e : String) (w w1 w2 : P.World) → P.parse q.body ≡ ok j
      → get_by_id P x c.user_id w ≡ (ok profile, w1)
      → read_field P j "first_name" profile.first_name ≡ ok first_name
      → read_field P j "last_name" profile.last_name ≡ ok last_name
      → read_field P j "username" profile.username ≡ ok username
      → read_field P j "bio" profile.bio ≡ ok bio
      → store_profile P x (changed_profile P profile first_name last_name username bio) w1
        ≡ (throw e, w2)
      → handle_update_profile P x storage q c w
        ≡ (ok (error_response 409 q.version "username already taken"), w2)
  unfolding handle_update_profile
  handle_update_profile_refused j profile first_name last_name username bio e w w1 w2 hj hp h1 h2 h3
        h4 h =
      let changed = changed_profile P profile first_name last_name username bio in
      ground (arith, update_refused P x changed e w1 w2 h, update_failed_taken w2)
