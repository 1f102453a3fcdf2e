-- ===== src/Requests/Paths.antt =====
-- From a request to the function that serves it, with the parameters that the function sees.
use profile_service_cpp.Prelude.{
  String, ◌<>◌, eq_iff, starts_with, true, false, [], ◌∷◌, Option, none, some, ◌≡◌, ◌≢◌, ◌⊎◌, ◌∙◌,
  inr, sym, ap, refl, arith,
}
use profile_service_cpp.Prelude.Dict.{insert}
use profile_service_cpp.Prelude.Text.{string_eq, substr}
use profile_service_cpp.Prelude.Text.Laws.{found_at_start-eq, substr-append, starts_with-append_lem}
use profile_service_cpp.Platform.{Platform}
use profile_service_cpp.Http.{Verb, get, HttpRequest, RouteContext, options, verb_beq, verb_eq}
use profile_service_cpp.Storage.{MinioStorage}
use profile_service_cpp.Database.Executor.{QueryExecutor}
use profile_service_cpp.Api.{HandlerId, HandlerInfo}
use profile_service_cpp.Api.RouteMap.{RouteMap, build_route_map}
use profile_service_cpp.Handlers.Common.{Handled}
use profile_service_cpp.Requests.Routing.{resolve_route, extract_path_params}
use profile_service_cpp.Requests.Serving.{
  served, id_of, resolve_route-served, starts_as, contacts_only, favorites_only,
}
use profile_service_cpp.Requests.Dispatch.{named, bind-eq-named}
use profile_service_cpp.Requests.RequestManager.{
  AuthChecker, simple_auth_checker, extract_user_id, is_internal_create_profile, authorize_request,
  run_handler, authorize, handle,
}

module _ (t : String) (ctx : RouteContext) where
  extract_contact :
      starts_with t "/contacts/" ≡ true
      → extract_path_params t ctx
        ≡ record ctx { path_params = insert "contact_id" (substr t 10) ctx.path_params }
  unfolding extract_path_params
  extract_contact h =
      ground (arith, found_at_start-eq t "/" "contacts/", starts_as t "/contacts" "/contacts/")

  extract_favorite :
      starts_with t "/favorites/" ≡ true
      → extract_path_params t ctx
        ≡ record ctx { path_params = insert "chat_id" (substr t 11) ctx.path_params }
  unfolding extract_path_params
  extract_favorite h = ground (
    arith,
    found_at_start-eq t "/" "contacts/",
    found_at_start-eq t "/" "favorites/",
    favorites_only t,
  )

  extract_notification :
      starts_with t "/notifications/" ≡ true
      → extract_path_params t ctx
        ≡ record ctx { path_params = insert "chat_id" (substr t 15) ctx.path_params }
  unfolding extract_path_params
  extract_notification h = ground (
    arith,
    found_at_start-eq t "/" "contacts/",
    found_at_start-eq t "/" "favorites/",
    found_at_start-eq t "/" "notifications/",
    favorites_only t,
    contacts_only t,
    starts_as t "/notifications" "/notifications/",
  )

abbrev pub fresh : String → RouteContext
fresh user = record { path_params = []; user_id = user }

abbrev pub with_param : String → String → String → RouteContext
with_param user key value = record { path_params = (key, value) ∷ []; user_id = user }

-- The part of a path behind `/contacts/`, `/favorites/` or `/notifications/` becomes the parameter,
-- whole, whatever it is, and no other parameter is set.
pub extract_path_params-append :
    (user rest : String)
    → (extract_path_params ("/contacts/" <> rest) (fresh user) ≡ with_param user "contact_id" rest)
      × (extract_path_params ("/favorites/" <> rest) (fresh user) ≡ with_param user "chat_id" rest)
      × (extract_path_params ("/notifications/" <> rest) (fresh user)
          ≡ with_param user "chat_id" rest)
unfolding insert
extract_path_params-append user rest = (
  extract_contact ("/contacts/" <> rest) (fresh user) (starts_with-append_lem "/contacts/" rest)
      ∙ ap (with_param user "contact_id") (substr-append "/contacts/" rest),
  extract_favorite ("/favorites/" <> rest) (fresh user) (starts_with-append_lem "/favorites/" rest)
      ∙ ap (with_param user "chat_id") (substr-append "/favorites/" rest),
  extract_notification ("/notifications/" <> rest) (fresh user)
        (starts_with-append_lem "/notifications/" rest)
      ∙ ap (with_param user "chat_id") (substr-append "/notifications/" rest),
)

some_of_id_of :
    (o : Option HandlerInfo) {id : HandlerId}
    → id_of o ≡ some id
    → (info : HandlerInfo) × (o ≡ some info) × (info.id ≡ id)
some_of_id_of none h = cc
some_of_id_of (some info) h = (info, refl, ground arith)

served-ne-options :
    (method : Verb) (t : String) {id : HandlerId}
    → served method t ≡ some id
    → verb_beq method options ≡ false
unfolding served
served-ne-options get t h = refl
served-ne-options options t h = cc
served-ne-options _ t h = refl

module _ (P : Platform) (x : QueryExecutor) (storage : MinioStorage) where
  -- the function that an id names, run on the request with the parameters of its target
  abbrev pub served_by : HandlerId → HttpRequest → Handled P
  served_by id q = named P x storage id q (extract_path_params q.target (fresh (extract_user_id q)))

  run_handler-eq-served_by :
      (info : HandlerInfo) (q : HttpRequest)
      → served q.method q.target ≡ some info.id
      → run_handler P x storage info q ≡ served_by info.id q
  unfolding run_handler
  run_handler-eq-served_by info q h = bind-eq-named P x storage info.id q _ h

  authorize-eq-run_handler :
      (info : HandlerInfo) (q : HttpRequest)
      → (is_internal_create_profile q ≡ true) ⊎ (extract_user_id q ≢ "")
      → authorize P x storage simple_auth_checker info q ≡ run_handler P x storage info q
  unfolding authorize authorize_request simple_auth_checker
  authorize-eq-run_handler info q h = ground (arith, eq_iff (extract_user_id q) "")

  handle-eq-authorize :
      (check : AuthChecker) (m : RouteMap) (q : HttpRequest) (info : HandlerInfo)
      → verb_beq q.method options ≡ false
      → resolve_route m q.target q.method ≡ some info
      → handle P x storage check m q ≡ authorize P x storage check info q
  unfolding handle
  handle-eq-authorize check m q info plain found = rw (plain, found, handle)

  -- A request that the account by verb serves, from a caller with a user id or for the internal creation
  -- of a profile, runs the function that its id names, with the user's id and the target's parameters,
  -- and nothing else: under the checker that the server installs, where distinct verbs have distinct
  -- numbers.
  pub handle-served :
      (label : Verb → String)
      → ((a b : Verb) → label a ≡ label b → a ≡ b)
      → (q : HttpRequest) (id : HandlerId) → served q.method q.target ≡ some id
      → (is_internal_create_profile q ≡ true) ⊎ (extract_user_id q ≢ "")
      → handle P x storage simple_auth_checker (build_route_map label) q ≡ served_by id q
  handle-served label inj q id h caller =
      let (info, found, same) =
        some_of_id_of _ (resolve_route-served label inj q.target q.method ∙ h) in
      let h' : served q.method q.target ≡ some info.id = h ∙ ap some (sym same) in
      handle-eq-authorize simple_auth_checker _ q info (served-ne-options q.method q.target h) found
      ∙ authorize-eq-run_handler info q caller
      ∙ run_handler-eq-served_by info q h'
      ∙ ap (λ i. served_by i q) same

  -- the same with the verb, the path and the caller named
  pub handle-at :
      (label : Verb → String)
      → ((a b : Verb) → label a ≡ label b → a ≡ b)
      → (q : HttpRequest) (v : Verb) (t u : String) (id : HandlerId) → served v t ≡ some id
      → q.method ≡ v
      → q.target ≡ t
      → extract_user_id q ≡ u
      → u ≢ ""
      → handle P x storage simple_auth_checker (build_route_map label) q
        ≡ named P x storage id q (extract_path_params t (fresh u))
  handle-at label inj q v t u id serves m target by_u known =
      handle-served label inj q id (rw (m, target) serves) (inr (rw by_u known))
      ∙ ap (λ s. named P x storage id q (extract_path_params s (fresh (extract_user_id q)))) target
      ∙ ap (λ a. named P x storage id q (extract_path_params t (fresh a))) by_u
