-- ===== src/Server/ServerImpl.antt =====
-- src/server_impl.cpp: the parts of the service put together. `label` is `std::to_string` of a verb's
-- number, by which the request manager's constructor builds its table.
pub mod Laws
use profile_service_cpp.Prelude.{ℕ, String}
use profile_service_cpp.Platform.{Platform}
use profile_service_cpp.Effect.{Action, ret, raise, try_catch, ◌>>=◌}
use profile_service_cpp.Http.{Verb, HttpRequest}
use profile_service_cpp.Api.RouteMap.{RouteMap, build_route_map}
use profile_service_cpp.Handlers.Common.{Handled}
use profile_service_cpp.Requests.RequestManager
use profile_service_cpp.Requests.RequestManager.{AuthChecker, simple_auth_checker}
use profile_service_cpp.Server.QueryManager.{QueryManager, new_query_manager}

-- `struct Endpoint` of include/profile_service/server.hpp
pub record Endpoint : Type 0 where
  pub address : String
  pub port : ℕ

-- The handler factory keeps the repositories and the storage of the query manager, and the request
-- manager its table and the checker.
pub record ServerImpl : Type 0 where
  pub endpoint : Endpoint
  pub query_manager : QueryManager
  pub auth_checker : AuthChecker
  pub route_map : RouteMap

module _ (P : Platform) where
  -- the constructor; what is caught is logged and thrown again
  unfoldable pub initialize_components : (Verb → String) → Endpoint → Action P.World ServerImpl
  initialize_components label endpoint =
      try_catch
        (do
          query_manager ← new_query_manager P
          ret (record {
            endpoint = endpoint;
            query_manager = query_manager;
            auth_checker = simple_auth_checker;
            route_map = build_route_map label;
          }))
        raise

  unfoldable pub handle : ServerImpl → HttpRequest → Handled P
  handle impl request =
      let manager = impl.query_manager in
      RequestManager.handle P manager.query_executor manager.avatar_storage impl.auth_checker
        impl.route_map request
