-- ===== src/Requests/Routing.antt =====
-- `ResolveRoute` and `ExtractPathParams` of src/request_manager.cpp.
use profile_service_cpp.Prelude.{
  String, Bool, not, ◌&&◌, ◌==◌, starts_with, len, Option, none, some, ltb, if◌then◌else◌,
}
use profile_service_cpp.Prelude.Dict.{insert}
use profile_service_cpp.Prelude.Text.{string_eq, substr, found_at_start, found_from}
use profile_service_cpp.Http.{Verb, RouteContext}
use profile_service_cpp.Api.{HandlerInfo}
use profile_service_cpp.Api.RouteMap.{RouteMap, find_exact}

-- A single path segment other than the fixed ones under `/me`.
unfoldable pub is_user_path : String → Bool
unfolding found_from
is_user_path target =
    not (target == "/me")
    && not (target == "/me/avatar")
    && not (target == "/me/privacy")
    && starts_with target "/"
    && not (found_from target "/" 1)

unfoldable pub resolve_route : RouteMap → String → Verb → Option HandlerInfo
unfolding find_exact is_user_path
resolve_route m target method = elim (find_exact m target method) [
  | some info ↦ some info
  | none ↦
      if starts_with target "/contacts/"
      then find_exact m "/contacts/{contact_id}" method
      else if starts_with target "/favorites/"
      then find_exact m "/favorites/{chat_id}" method
      else if starts_with target "/notifications/"
      then find_exact m "/notifications/{chat_id}" method
      else if is_user_path target
      then find_exact m "/{user_id}" method
      else none
]

unfoldable pub extract_path_params : String → RouteContext → RouteContext
unfolding insert
extract_path_params target ctx =
    if found_at_start target "/contacts/" && not (target == "/contacts")
    then record ctx { path_params = insert "contact_id" (substr target 10) ctx.path_params }
    else if found_at_start target "/favorites/"
    then record ctx { path_params = insert "chat_id" (substr target 11) ctx.path_params }
    else if found_at_start target "/notifications/" && not (target == "/notifications")
    then record ctx { path_params = insert "chat_id" (substr target 15) ctx.path_params }
    else if not (target == "/me") && found_at_start target "/" && ltb 1 (len target)
    then record ctx { path_params = insert "user_id" (substr target 1) ctx.path_params }
    else ctx
