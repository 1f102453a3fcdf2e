-- ===== src/Requests/Reordered.antt =====
-- Routing over a table that was built in another order.
use profile_service_cpp.Prelude.{String, [], ◌≡◌, ◌∙◌, ap, arith}
use profile_service_cpp.Prelude.Dict.{Dict}
use profile_service_cpp.Http.{Verb}
use profile_service_cpp.Api.{HandlerInfo, flat_routes}
use profile_service_cpp.Api.RouteMap.{build_from, build_route_map}
use profile_service_cpp.Api.Order.{Reordering, find_exact-reordered}
use profile_service_cpp.Requests.Routing.{resolve_route}
use profile_service_cpp.Requests.Serving.{served, id_of, resolve_route-served}

module _ (label : Verb → String) (label_injective : (a b : Verb) → label a ≡ label b → a ≡ b) where
  resolve_route-build_from :
      {flat : Dict String HandlerInfo}
      → Reordering (flat_routes label) flat
      → (t : String) (method : Verb)
      → resolve_route (build_from [] flat) t method ≡ resolve_route (build_route_map label) t method
  unfolding resolve_route
  resolve_route-build_from r t method = ground (
    arith,
    find_exact-reordered label label_injective r t method,
    find_exact-reordered label label_injective r "/contacts/{contact_id}" method,
    find_exact-reordered label label_injective r "/favorites/{chat_id}" method,
    find_exact-reordered label label_injective r "/notifications/{chat_id}" method,
    find_exact-reordered label label_injective r "/{user_id}" method,
  )

  -- In whatever order the entries of the flat table are met, `ResolveRoute` over the table built from them
  -- finds, for every target and verb, the handler that the account by verb names, and nothing where that
  -- names none, where distinct verbs have distinct numbers.
  pub resolve_route-reordered :
      {flat : Dict String HandlerInfo}
      → Reordering (flat_routes label) flat
      → (t : String) (method : Verb)
      → id_of (resolve_route (build_from [] flat) t method) ≡ served method t
  resolve_route-reordered r t method =
      ap id_of (resolve_route-build_from r t method)
      ∙ resolve_route-served label label_injective t method
