-- ===== src/Requests/Tests.antt =====
-- Requests on a concrete platform.
use profile_service_cpp.Prelude.{List, ◌∷◌, true, false, some, [], ◌≡◌, ◌≢◌, ◌==◌, ap, refl, inr}
use profile_service_cpp.Api.Order.{Reordering, nil, keep, swap}
use profile_service_cpp.Requests.Reordered.{resolve_route-reordered}
use profile_service_cpp.Http.{get, put, delete_, HttpResponse}
use profile_service_cpp.Effect.{ok}
use profile_service_cpp.Api.{HandlerId, flat_routes}
use profile_service_cpp.Api.RouteMap.{build_from, build_route_map}
use profile_service_cpp.Requests.Routing.{resolve_route}
use profile_service_cpp.Requests.Serving.{names_user, served, id_of}
use profile_service_cpp.Requests.Factory.{bind}
use profile_service_cpp.Requests.Dispatch.{named, bind-eq-named}
use profile_service_cpp.Requests.Safety.{
  handle_answers, anonymous_response, handle_anonymous, handle-simple_auth_checker,
}
use profile_service_cpp.Requests.Paths.{with_param, served_by, handle-served}
use profile_service_cpp.Requests.RequestManager.{
  simple_auth_checker, extract_user_id, is_internal_create_profile, handle,
}
use profile_service_cpp.Bench.{bench, executor, storage, request, label, label_injective}

served_delete_contact : served delete_ "/contacts/bob" ≡ some HandlerId.delete_contact
unfolding served
served_delete_contact = refl

served_profile : served get "/alice" ≡ some HandlerId.get_profile_by_id
unfolding served names_user
served_profile = refl

has_user : extract_user_id (request delete_ "/contacts/bob" "alice" "") ≢ ""
unfolding extract_user_id
has_user e = let differ : true ≡ false = ap (λ t. t == "alice") e in cc

no_user : extract_user_id (request put "/me/privacy" "" "") ≡ ""
unfolding extract_user_id
no_user = refl

outer : is_internal_create_profile (request put "/me/privacy" "" "") ≡ false
unfolding is_internal_create_profile
outer = refl

handle-served_example :
    handle bench executor storage simple_auth_checker
      (build_route_map label)
      (request delete_ "/contacts/bob" "alice" "")
    ≡ served_by bench executor storage HandlerId.delete_contact
        (request delete_ "/contacts/bob" "alice" "")
handle-served_example =
    handle-served bench executor storage label label_injective
      (request delete_ "/contacts/bob" "alice" "") HandlerId.delete_contact served_delete_contact
      (inr has_user)

bind-eq-named_example :
    bind bench executor storage HandlerId.get_profile_by_id
      (request get "/alice" "bob" "")
      (with_param "bob" "user_id" "alice")
    ≡ named bench executor storage HandlerId.get_profile_by_id
        (request get "/alice" "bob" "")
        (with_param "bob" "user_id" "alice")
bind-eq-named_example =
    bind-eq-named bench executor storage HandlerId.get_profile_by_id (request get "/alice" "bob" "")
      (with_param "bob" "user_id" "alice") served_profile

handle_answers_example :
    (r : HttpResponse) × ((handle bench executor storage simple_auth_checker
        (build_route_map label)
        (request get "/alice" "bob" "")
        []).0
      ≡ ok r)
handle_answers_example =
    handle_answers bench executor storage simple_auth_checker (request get "/alice" "bob" "")
      (build_route_map label) []

handle_anonymous_example :
    handle bench executor storage simple_auth_checker
      (build_route_map label)
      (request put "/me/privacy" "" "")
      []
    ≡ (
      ok (
          anonymous_response bench executor storage simple_auth_checker
            (request put "/me/privacy" "" "")
            (build_route_map label)),
      [],
    )
handle_anonymous_example =
    handle_anonymous bench executor storage simple_auth_checker (request put "/me/privacy" "" "")
      (build_route_map label) [] no_user outer

handle-simple_auth_checker_example :
    handle bench executor storage simple_auth_checker
      (build_route_map label)
      (request get "/contacts" "bob" "")
      []
    ≡ handle bench executor storage
        (λ user scope. true)
        (build_route_map label)
        (request get "/contacts" "bob" "")
        []
handle-simple_auth_checker_example =
    handle-simple_auth_checker bench executor storage (build_route_map label)
      (request get "/contacts" "bob" "") []

-- a list with its first two items exchanged
abbrev exchanged {ℓ} : {A : Type ℓ} → List A → List A
exchanged [] = []
exchanged (x ∷ []) = x ∷ []
exchanged (x ∷ y ∷ xs) = y ∷ x ∷ xs

exchanged-Reordering {ℓ} : {A : Type ℓ} (xs : List A) → Reordering xs (exchanged xs)
exchanged-Reordering [] = nil
exchanged-Reordering (x ∷ []) = keep nil
exchanged-Reordering (x ∷ y ∷ xs) = swap

resolve_route-reordered_example :
    id_of (resolve_route (build_from [] (exchanged (flat_routes label))) "/contacts/bob" delete_)
    ≡ served delete_ "/contacts/bob"
resolve_route-reordered_example =
    resolve_route-reordered label label_injective (exchanged-Reordering (flat_routes label))
      "/contacts/bob" delete_
