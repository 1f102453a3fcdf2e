-- ===== src/Requests/Confined.antt =====
-- What a request touches of the world: no more than the statements of its handler for the caller.
use profile_service_cpp.Prelude.{
  String, true, false, ◌≡◌, inl, inr, Option-cases, subst, sym, arith,
}
use profile_service_cpp.Platform.{Platform}
use profile_service_cpp.Effect.Keeps.{Keeps, keeps_rules}
use profile_service_cpp.Http.{get, verb_beq, HttpRequest, RouteContext}
use profile_service_cpp.Storage.{MinioStorage}
use profile_service_cpp.Database.Executor.{QueryExecutor}
use profile_service_cpp.Api.{HandlerId, HandlerInfo}
use profile_service_cpp.Api.RouteMap.{RouteMap}
use profile_service_cpp.Repository.Confined.{Confined}
use profile_service_cpp.Handlers.Confined.{
  profile-Keeps, contacts-Keeps, privacy-Keeps, favorites-Keeps, notifications-Keeps,
}
use profile_service_cpp.Requests.Routing.{resolve_route, extract_path_params}
use profile_service_cpp.Requests.Factory.{
  HandlerClass, profile, contacts, privacy, favorites, notifications, dispatch, handler_class, bind,
}
use profile_service_cpp.Requests.RequestManager.{
  AuthChecker, extract_user_id, is_internal_create_profile, run_handler, authorize, handle,
}

extract_path_params-user_id :
    (t : String) (c : RouteContext) → (extract_path_params t c).user_id ≡ c.user_id
unfolding extract_path_params
extract_path_params-user_id t c = ground arith

module _ (P : Platform) (x : QueryExecutor) (Sends : Type 0) (Allowed : String → Type 0)
    (I : P.World → Type 0) (confined : Confined P x Sends Allowed I) (storage : MinioStorage)
    (q : HttpRequest) (internal : is_internal_create_profile q ≡ true → (v : String) → Allowed v)
    (writes : verb_beq q.method get ≡ false → Allowed (extract_user_id q)) where
  dispatch-Keeps :
      (k : HandlerClass) (c : RouteContext)
      → (verb_beq q.method get ≡ false → Allowed c.user_id)
      → Keeps I (dispatch P x storage k q c)
  unfolding is_internal_create_profile
  dispatch-Keeps profile c a = profile-Keeps P x Sends Allowed I confined storage q c a internal
  dispatch-Keeps contacts c a = contacts-Keeps P x Sends Allowed I confined storage q c a
  dispatch-Keeps privacy c a = privacy-Keeps P x Sends Allowed I confined storage q c a
  dispatch-Keeps favorites c a = favorites-Keeps P x Sends Allowed I confined storage q c a
  dispatch-Keeps notifications c a = notifications-Keeps P x Sends Allowed I confined storage q c a

  bind-Keeps :
      (id : HandlerId) (c : RouteContext)
      → (verb_beq q.method get ≡ false → Allowed c.user_id)
      → Keeps I (bind P x storage id q c)
  unfolding bind
  bind-Keeps id c a = elim (Option-cases (handler_class id)) [
    | inl gone ↦ rw (gone, bind) (search keeps_rules)
    | inr (k, found) ↦ rw (found, bind) (dispatch-Keeps k c a)
  ]

  run_handler-Keeps : (info : HandlerInfo) → Keeps I (run_handler P x storage info q)
  unfolding run_handler
  run_handler-Keeps info =
      bind-Keeps info.id _
        (λ other. subst Allowed (sym (extract_path_params-user_id q.target _)) (writes other))

  authorize-Keeps :
      (check : AuthChecker) (info : HandlerInfo) → Keeps I (authorize P x storage check info q)
  unfolding authorize
  authorize-Keeps check info = search (keeps_rules, run_handler-Keeps)

  pub handle-Keeps : (check : AuthChecker) (m : RouteMap) → Keeps I (handle P x storage check m q)
  unfolding handle
  handle-Keeps check m = elim (Option-cases (resolve_route m q.target q.method)) [
    | inl lost ↦ rw (lost, handle) (search keeps_rules)
    | inr (info, found) ↦ rw (found, handle) (search (keeps_rules, authorize-Keeps))
  ]
