-- ===== src/Server/ServerImpl/Laws.antt =====
-- What a server that could be put together is, and why one could not.
use profile_service_cpp.Prelude.{String, ◌<>◌, true, some, ◌≡◌, ◌≢◌, ◌⊎◌, arith}
use profile_service_cpp.Platform.{Platform}
use profile_service_cpp.Effect.{ok, throw}
use profile_service_cpp.Http.{Verb, HttpRequest, HttpResponse}
use profile_service_cpp.Api.RouteMap.{build_route_map}
use profile_service_cpp.Api.{HandlerId}
use profile_service_cpp.Requests.Serving.{served}
use profile_service_cpp.Requests.Paths.{served_by, handle-served}
use profile_service_cpp.Requests.RequestManager.{
  simple_auth_checker, is_internal_create_profile, extract_user_id,
}
use profile_service_cpp.Requests.Safety.{handle_answers}
use profile_service_cpp.Database.Connection.{new_connection}
use profile_service_cpp.Server.QueryManager.{
  initialize_repositories, initialize_storage, new_query_manager,
}
use profile_service_cpp.Server.ServerImpl.{Endpoint, ServerImpl, initialize_components, handle}

module _ (P : Platform) where
  pub handle-answers :
      (impl : ServerImpl) (q : HttpRequest) (w : P.World)
      → (r : HttpResponse) × ((handle P impl q w).0 ≡ ok r)
  unfolding handle
  handle-answers impl q w = handle_answers P _ _ impl.auth_checker q impl.route_map w

  -- what the constructor leaves, where it returns
  initialized :
      (label : Verb → String) (endpoint : Endpoint) {impl : ServerImpl} (w w' : P.World)
      → initialize_components P label endpoint w ≡ (ok impl, w')
      → (impl.auth_checker ≡ simple_auth_checker) × (impl.route_map ≡ build_route_map label)
  unfolding initialize_components
  initialized label endpoint w w' h = ground arith

  -- On a server that its constructor has put together, a request that the account by verb serves, from a
  -- caller with a user id or for the internal creation of a profile, runs the function that its id names
  -- over the server's own database and storage, where distinct verbs have distinct texts.
  pub initialize_components-handle :
      (label : Verb → String)
      → ((a b : Verb) → label a ≡ label b → a ≡ b)
      → (endpoint : Endpoint) (impl : ServerImpl) (w w' : P.World)
      → initialize_components P label endpoint w ≡ (ok impl, w')
      → (q : HttpRequest) (id : HandlerId) → served q.method q.target ≡ some id
      → (is_internal_create_profile q ≡ true) ⊎ (extract_user_id q ≢ "")
      → handle P impl q
        ≡ served_by P impl.query_manager.query_executor impl.query_manager.avatar_storage id q
  unfolding handle
  initialize_components-handle label inj endpoint impl w w' h q id hs caller =
      let (checker, table) = initialized label endpoint w w' h in
      rw (checker, table) (handle-served P _ _ label inj q id hs caller)

  -- the server over an open connection
  abbrev pub ready : (Verb → String) → Endpoint → ServerImpl
  ready label endpoint = record {
    endpoint = endpoint;
    query_manager = record {
      query_executor = record {
        connection = some (record { has_connection = true; is_open_flag = true });
      };
      avatar_storage = initialize_storage P;
    };
    auth_checker = simple_auth_checker;
    route_map = build_route_map label;
  }

  module _ {db_url : String} {w w1 : P.World} (url : P.getenv "DATABASE_URL" ≡ some db_url) where
    connected :
        P.connect db_url w ≡ (ok tt, w1)
        → P.is_open w1 ≡ true
        → new_connection P db_url w
          ≡ (ok (record { has_connection = true; is_open_flag = true }), w1)
    unfolding new_connection
    connected h o = ground arith

    pub initialize_components_ok :
        P.connect db_url w ≡ (ok tt, w1)
        → P.is_open w1 ≡ true
        → (label : Verb → String) (endpoint : Endpoint)
        → initialize_components P label endpoint w ≡ (ok (ready label endpoint), w1)
    unfolding initialize_components new_query_manager initialize_repositories
    initialize_components_ok h o label endpoint = ground (arith, connected h o)

    unconnected :
        {e : String}
        → P.connect db_url w ≡ (throw e, w1)
        → new_connection P db_url w ≡ (throw ("PostgreSQL connection error: " <> e), w1)
    unfolding new_connection
    unconnected h = ground arith

    pub initialize_components_throws :
        {e : String}
        → P.connect db_url w ≡ (throw e, w1)
        → (label : Verb → String) (endpoint : Endpoint)
        → initialize_components P label endpoint w
          ≡ (throw ("PostgreSQL connection error: " <> e), w1)
    unfolding initialize_components new_query_manager initialize_repositories
    initialize_components_throws h label endpoint = ground (arith, unconnected h)
