-- ===== src/Server/Tests.antt =====
-- The server on a concrete platform.
use profile_service_cpp.Prelude.{
  ℕ, Option, String, ◌==◌, true, false, none, some, [], ◌∷◌, ◌≡◌, ◌≢◌, ap, refl, inr,
}
use profile_service_cpp.Prelude.Text.{string_eq}
use profile_service_cpp.Effect.{ok}
use profile_service_cpp.Http.{get, put, patch, delete_, json_response, error_response, HttpRequest}
use profile_service_cpp.Api.{HandlerId}
use profile_service_cpp.Requests.Serving.{served}
use profile_service_cpp.Requests.Paths.{served_by}
use profile_service_cpp.Requests.RequestManager.{extract_user_id}
use profile_service_cpp.Server.ServerImpl.{Endpoint, ServerImpl, initialize_components, handle}
use profile_service_cpp.Server.ServerImpl.Laws.{
  ready, initialize_components_ok, initialize_components-handle,
}
use profile_service_cpp.Server.Program.{serves, main, main_serves}
use profile_service_cpp.Server.Privacy.{put-get_privacy}
use profile_service_cpp.Server.Profiles.{named, kept, patch-get_profile}
use profile_service_cpp.Server.Usernames.{second_unnamed_clash}
use profile_service_cpp.Repository.ProfileRepository.Table.{StoredProfile, blank}
use profile_service_cpp.Bench.Profiles.{ProfileWorld, profile_bench, profile_table}
use profile_service_cpp.Models.{PrivacySettings}
use profile_service_cpp.Bench.Tables.{posted, privacy_bench, privacy_table}
use profile_service_cpp.Effect.{◌>>=◌}
use profile_service_cpp.Bench.{bench, request, label, label_injective}

abbrev endpoint : Endpoint
endpoint = record { address = "0.0.0.0"; port = 8082 }

abbrev impl : ServerImpl
impl = ready bench label endpoint

deletes_contact : served delete_ "/contacts/bob" ≡ some HandlerId.delete_contact
unfolding served
deletes_contact = refl

by_alice : extract_user_id (request delete_ "/contacts/bob" "alice" "") ≢ ""
unfolding extract_user_id
by_alice e = let differ : true ≡ false = ap (λ t. t == "alice") e in cc

built : initialize_components bench label endpoint [] ≡ (ok impl, [])
built = initialize_components_ok bench {db_url = "postgresql://bench"} refl refl refl label endpoint

initialize_components-handle_example :
    handle bench impl (request delete_ "/contacts/bob" "alice" "")
    ≡ served_by bench impl.query_manager.query_executor impl.query_manager.avatar_storage
        HandlerId.delete_contact
        (request delete_ "/contacts/bob" "alice" "")
initialize_components-handle_example =
    initialize_components-handle bench label label_injective endpoint impl [] [] built
      (request delete_ "/contacts/bob" "alice" "") HandlerId.delete_contact deletes_contact
      (inr by_alice)

main_serves_example : main bench label [] [] ≡ (ok (serves impl), [])
main_serves_example =
    main_serves bench label [] {address = "0.0.0.0"} {port = 8082} refl
      {db_url = "postgresql://bench"} [] refl refl refl

abbrev put_settings : HttpRequest
put_settings = request put "/me/privacy" "alice" "x"

abbrev get_settings : HttpRequest
get_settings = request get "/me/privacy" "alice" ""

put_by_alice : extract_user_id put_settings ≡ "alice"
unfolding extract_user_id
put_by_alice = refl

get_by_alice : extract_user_id get_settings ≡ "alice"
unfolding extract_user_id
get_by_alice = refl

abbrev alice : String
alice = "alice"

alice_known : alice ≢ ""
alice_known e = let differ : true ≡ false = ap (λ t. t == "alice") e in cc

abbrev no_settings : String → Option PrivacySettings
no_settings u = none

put-get_privacy_example :
    ((handle privacy_bench (ready privacy_bench label endpoint) put_settings no_settings).0
      ≡ ok (json_response 204 11 ""))
    × (((handle privacy_bench (ready privacy_bench label endpoint) put_settings >>= λ _.
            handle privacy_bench (ready privacy_bench label endpoint) get_settings)
          no_settings).0
        ≡ ok (json_response 200 11 "{}"))
put-get_privacy_example =
    put-get_privacy privacy_bench privacy_table label label_injective endpoint put_settings
      get_settings "alice" (posted "x") "everyone" "everyone" "everyone" "{}" no_settings refl refl
      refl refl put_by_alice get_by_alice alice_known refl refl refl refl refl refl refl

abbrev patch_me : HttpRequest
patch_me = request patch "/me" "alice" "x"

abbrev get_me : HttpRequest
get_me = request get "/me" "alice" ""

patch_by_alice : extract_user_id patch_me ≡ "alice"
unfolding extract_user_id
patch_by_alice = refl

get_me_by_alice : extract_user_id get_me ≡ "alice"
unfolding extract_user_id
get_me_by_alice = refl

abbrev alices : StoredProfile
alices = record blank { username = some "ally"; avatar_url = some "here" }

patch-get_profile_example :
    ((handle profile_bench (ready profile_bench label endpoint) patch_me (("alice", alices) ∷ [])).0
      ≡ ok (json_response 200 11 "{}"))
    × (s : ℕ) × (t : ℕ) × (((handle profile_bench (ready profile_bench label endpoint) patch_me
            >>= λ _. handle profile_bench (ready profile_bench label endpoint) get_me)
          (("alice", alices) ∷ [])).0
        ≡ ok (json_response 200 11 "{}"))
patch-get_profile_example =
    patch-get_profile profile_bench profile_table label label_injective endpoint patch_me get_me
      "alice" (posted "x") alices none none (some "ally") (some "x") "{}" (λ s t. "{}")
      (("alice", alices) ∷ []) refl refl refl refl patch_by_alice get_me_by_alice alice_known refl
      (kept refl) (kept refl) (kept refl) (named refl refl refl) refl (λ s t. refl) refl refl refl

abbrev patch_bob : HttpRequest
patch_bob = request patch "/me" "bob" "x"

patch_by_bob : extract_user_id patch_bob ≡ "bob"
unfolding extract_user_id
patch_by_bob = refl

abbrev bob : String
bob = "bob"

bob_known : bob ≢ ""
bob_known e = let differ : true ≡ false = ap (λ t. t == "bob") e in cc

-- two users with blank profiles
abbrev two_users : ProfileWorld
two_users = ("alice", blank) ∷ ("bob", blank) ∷ []

second_unnamed_clash_example :
    ((handle profile_bench (ready profile_bench label endpoint) patch_bob two_users).0
      ≡ ok (json_response 200 11 "{}"))
    × (((handle profile_bench (ready profile_bench label endpoint) patch_bob >>= λ _.
            handle profile_bench (ready profile_bench label endpoint) patch_me)
          two_users).0
        ≡ ok (error_response 409 11 "username already taken"))
second_unnamed_clash_example =
    second_unnamed_clash profile_bench profile_table label label_injective endpoint patch_bob
      patch_me "bob" "alice" (posted "x") (posted "x") blank blank none none (some "x") none none
      (some "x") "{}" two_users refl refl refl refl patch_by_bob patch_by_alice bob_known
      alice_known refl refl refl refl refl refl refl refl refl refl refl refl refl refl refl refl
      refl refl
