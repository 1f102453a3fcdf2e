-- ===== src/Requests/RequestManager.antt =====
-- `RequestManager::Handle` of src/request_manager.cpp, with the authorisation of
-- include/profile_service/auth_validator.hpp.
use profile_service_cpp.Prelude.{
  String, Bool, not, ◌&&◌, ◌==◌, none, some, [], value_or, if◌then◌else◌,
}
use profile_service_cpp.Platform.{Platform}
use profile_service_cpp.Http.{post, options, verb_beq, HttpRequest, RouteContext}
use profile_service_cpp.Storage.{MinioStorage}
use profile_service_cpp.Database.Executor.{QueryExecutor}
use profile_service_cpp.Api.{HandlerInfo}
use profile_service_cpp.Api.RouteMap.{RouteMap}
use profile_service_cpp.Handlers.Common.{Handled, fail, answer}
use profile_service_cpp.Requests.Routing.{resolve_route, extract_path_params}
use profile_service_cpp.Requests.Factory.{bind}

-- `IAuthChecker::Check`, and the one implementation, which ignores the scope
abbrev pub AuthChecker : Type 0
AuthChecker = String → String → Bool

unfoldable pub simple_auth_checker : AuthChecker
simple_auth_checker user_id scope = not (user_id == "")

unfoldable pub extract_user_id : HttpRequest → String
extract_user_id request = value_or (request.header "X-User-ID") ""

unfoldable pub authorize_request : AuthChecker → String → HandlerInfo → Bool
authorize_request check user_id info = check user_id info.scope

unfoldable pub is_internal_create_profile : HttpRequest → Bool
is_internal_create_profile request =
    verb_beq request.method post && request.target == "/internal/profiles"

module _ (P : Platform) (x : QueryExecutor) (storage : MinioStorage) where
  -- from the extraction of the path parameters on
  unfoldable pub run_handler : HandlerInfo → HttpRequest → Handled P
  run_handler info request =
      let ctx : RouteContext =
        extract_path_params request.target
          (record { path_params = []; user_id = extract_user_id request }) in
      bind P x storage info.id request ctx

  -- the checks on a resolved route
  unfoldable pub authorize : AuthChecker → HandlerInfo → HttpRequest → Handled P
  authorize check info request =
      if is_internal_create_profile request
      then run_handler info request
      else if extract_user_id request == ""
      then fail P 401 request "missing X-User-ID"
      else if authorize_request check (extract_user_id request) info
      then run_handler info request
      else fail P 403 request "auth_failed"

  unfoldable pub handle : AuthChecker → RouteMap → HttpRequest → Handled P
  handle check m request =
      if verb_beq request.method options
      then answer P 204 request ""
      else elim (resolve_route m request.target request.method) [
        | none ↦ fail P 404 request "route_not_found"
        | some info ↦ authorize check info request
      ]
