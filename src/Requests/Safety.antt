-- ===== src/Requests/Safety.antt =====
-- What the request manager guarantees for every request, whatever the platform does.
use profile_service_cpp.Prelude.{
  eq_iff, true, false, none, some, ◌≡◌, inl, inr, refl, Option-cases, Bool-cases, arith,
  if◌then◌else◌,
}
use profile_service_cpp.Platform.{Platform}
use profile_service_cpp.Effect.{ok}
use profile_service_cpp.Http.{
  HttpRequest, HttpResponse, RouteContext, options, verb_beq, json_response, error_response,
}
use profile_service_cpp.Storage.{MinioStorage}
use profile_service_cpp.Database.Executor.{QueryExecutor}
use profile_service_cpp.Api.{HandlerId, HandlerInfo}
use profile_service_cpp.Api.RouteMap.{RouteMap}
use profile_service_cpp.Handlers.Common.{fail}
use profile_service_cpp.Handlers.Answers.{
  Answers, if-Answers, profile-Answers, contacts-Answers, privacy-Answers, favorites-Answers,
  notifications-Answers,
}
use profile_service_cpp.Requests.Routing.{resolve_route}
use profile_service_cpp.Requests.Factory.{
  HandlerClass, profile, contacts, privacy, favorites, notifications, dispatch, handler_class, bind,
}
use profile_service_cpp.Requests.RequestManager.{
  AuthChecker, simple_auth_checker, extract_user_id, is_internal_create_profile, run_handler,
  authorize_request, authorize, handle,
}

module _ (P : Platform) (x : QueryExecutor) (storage : MinioStorage) where
  dispatch-Answers :
      (k : HandlerClass) (q : HttpRequest) (c : RouteContext)
      → Answers P (dispatch P x storage k q c)
  dispatch-Answers profile q c = profile-Answers P x storage q c
  dispatch-Answers contacts q c = contacts-Answers P x storage q c
  dispatch-Answers privacy q c = privacy-Answers P x storage q c
  dispatch-Answers favorites q c = favorites-Answers P x storage q c
  dispatch-Answers notifications q c = notifications-Answers P x storage q c

  bind-Answers :
      (id : HandlerId) (q : HttpRequest) (c : RouteContext) → Answers P (bind P x storage id q c)
  unfolding bind
  bind-Answers id q c = elim (Option-cases (handler_class id)) [
    | inl gone ↦ rw (gone, bind) (λ w. (_, refl))
    | inr (k, found) ↦ rw (found, bind) (dispatch-Answers k q c)
  ]

  run_handler-Answers :
      (info : HandlerInfo) (q : HttpRequest) → Answers P (run_handler P x storage info q)
  unfolding run_handler
  run_handler-Answers info q = bind-Answers info.id q _

  module _ (check : AuthChecker) (q : HttpRequest) where
    authorize-Answers : (info : HandlerInfo) → Answers P (authorize P x storage check info q)
    unfolding authorize
    authorize-Answers info =
        if-Answers P _ (run_handler P x storage info q) _ (run_handler-Answers info q) (
          if-Answers P _ (fail P 401 q "missing X-User-ID") _ (λ w. (_, refl))
            (if-Answers P _ (run_handler P x storage info q) (fail P 403 q "auth_failed")
              (run_handler-Answers info q) (λ w. (_, refl))))

    -- Every request is answered, in every state of the world: no exception reaches the server's loop,
    -- whatever the platform's calls throw.
    pub handle_answers :
        (m : RouteMap) (w : P.World)
        → (r : HttpResponse) × ((handle P x storage check m q w).0 ≡ ok r)
    unfolding handle
    handle_answers m w = elim (Bool-cases (verb_beq q.method options)) [
      | inl preflight ↦ rw preflight (_, refl)
      | inr other ↦ rw other (elim (Option-cases (resolve_route m q.target q.method)) [
        | inl lost ↦ rw (lost, handle) (_, refl)
        | inr (info, found) ↦ rw (found, handle) (authorize-Answers info w)
      ])
    ]

    -- what an anonymous caller is answered, apart from the internal creation of a profile
    abbrev pub anonymous_response : RouteMap → HttpResponse
    anonymous_response m =
        if verb_beq q.method options
        then json_response 204 q.version ""
        else elim (resolve_route m q.target q.method) [
          | none ↦ error_response 404 q.version "route_not_found"
          | some info ↦ error_response 401 q.version "missing X-User-ID"
        ]

    -- A request with no user id that is not the internal creation of a profile runs no handler: the world
    -- is as before, and the answer is 204 to a preflight, 404 without a route and 401 with one.
    pub handle_anonymous :
        (m : RouteMap) (w : P.World)
        → extract_user_id q ≡ ""
        → is_internal_create_profile q ≡ false
        → handle P x storage check m q w ≡ (ok (anonymous_response m), w)
    unfolding handle authorize
    handle_anonymous m w nobody outer = ground (arith, eq_iff (extract_user_id q) "")

  -- The checker that the server installs refuses nobody who has a user id: the scopes of the routes play
  -- no part, and 403 is never answered.
  pub handle-simple_auth_checker :
      (m : RouteMap) (q : HttpRequest) (w : P.World)
      → handle P x storage simple_auth_checker m q w ≡ handle P x storage (λ user scope. true) m q w
  unfolding handle authorize authorize_request simple_auth_checker
  handle-simple_auth_checker m q w = ground arith
