-- ===== src/Lib.antt =====
-- The profile service: an HTTP server for user profiles, avatars, contacts, favorites, privacy settings
-- and notification settings, over PostgreSQL. A request comes in through src/server.cpp, goes to
-- src/server_impl.cpp and from there to `RequestManager::Handle` of src/request_manager.cpp, which finds
-- the route in the table of src/api_spec.cpp, checks the caller, reads the path's parameter and has
-- src/handlers/handler_factory.cpp bind the handler object of the route. The handler (src/handlers/)
-- tests verb and target once more, reads the JSON body, and calls a repository (src/repository/), which
-- sends SQL through the query executor and the connection of src/repository/postgres_connection.cpp and
-- maps the rows that come back.
--
-- The files, each with the code it models:
--   * Platform: what the service calls and does not implement (std's clock, calendar and number texts,
--     the environment and the command line, nlohmann::json, Boost.Beast's `set` and `keep_alive` of a
--     response, libpqxx with the server behind it), as a record that the definitions take; nothing is
--     assumed of it. The state of the world outside is one of its types.
--   * Effect: exceptions (`Result`, by their `what()`) and functions that may throw and act on the world
--     (`Action`); what was done to the world before an exception stays done. `try_catch` is try/catch.
--     Effect/Keeps has the invariants of actions and Effect/Yields what holds of their values, with rules for
--     the combinators that the proofs search.
--   * Models: include/profile_service/domain/models.hpp. Http: include/profile_service/handlers/ihandler.hpp.
--   * Database: src/repository/postgres_connection.cpp, src/repository/query_executor.cpp and the headers
--     of the same names. A pointer that may be null is an `Option`; `m_txn` and `m_connection` are kept by
--     whether they are set; the cursor of a result set counts modulo 2^64.
--   * Mappers: src/repository/mappers.cpp. Repository: src/repository/*_repository.cpp, with the SQL texts
--     as they stand. Storage: src/repository/minio_storage.cpp.
--   * Base64: `DecodeBase64` of include/profile_service/utils/json_utils.hpp, over bytes; `val` is a 32-bit
--     pattern and `valb` an integer. Base64/Reference is Base64 as RFC 4648 defines it.
--   * Handlers: src/handlers/*_handler.cpp. An action over the platform's world yields the response.
--   * Api: src/api_spec.cpp, and `BuildRouteMap` of src/request_manager.cpp.
--   * Requests: src/request_manager.cpp, src/handlers/handler_factory.cpp and
--     include/profile_service/auth_validator.hpp. `served` in Requests/Serving is the account of the routes
--     by verb that the routing is compared with, and `named` in Requests/Dispatch the function of an id.
--     Requests/Reordered has the routing for every order in which the unordered map is met, and
--     Api/Constants the constants of include/profile_service/api_routes.hpp.
--   * Database/Confined, Repository/Confined, Handlers/Confined, Requests/Confined, Requests/Reading and
--     Requests/Isolation: which statements an operation, a handler and a request may send. `owner` in
--     Repository/Confined is the user whose rows a statement changes, `KeptByReads` in Requests/Reading
--     says of a property of the world that reading does not change it, and `Foreign` in
--     Requests/Isolation that it is about others than a user.
--   * Repository/Sql, Repository/*/Table, Repository/*/Laws: the tables behind the repositories, as records
--     of what PostgreSQL does with their statements (with `fits` for the constraints of the schema, foreign
--     keys among them), and the repositories over them.
--   * Server: src/query_manager.cpp, src/server_impl.cpp, src/server.cpp and src/main.cpp. Server/System is
--     the step relation of the thread that calls `Start` and `Stop`, the accept loop and the clients, in
--     every interleaving, one step for each access to what they share; the loop's test of the flag and the
--     token is one step. `Start` and `Stop` are called by one thread, as `main` does. `accept` without a
--     connection and `read` block until the network has something for them, which it need not ever have;
--     `write` and `connect` are taken to return, and a connection to a listening acceptor is taken.
--     Server/Reply is what the loop sets in a response before it sends it.
--     Server/Privacy and Server/Profiles follow a user's settings and profile from one request to the next,
--     and Server/Usernames two users' profiles.
--     Server/Program has `main` up to its wait, and Server/Process has it from the call of `Start` to its
--     return as steps: the main thread is the thread that calls `Start` and `Stop`, and it runs the
--     destructors of `Server` and of its thread too.
--   * JsonUtils: the time and JSON helpers of include/profile_service/utils/json_utils.hpp.
--   * Prelude: names of the libraries, Boolean tests, `std::unordered_map` as an association list in which
--     an assignment replaces, and the searches of `std::string`.
--     Bench: concrete platforms.
--
-- Every loop of the handlers and repositories runs over a list or counts down, so its model is structural
-- recursion; the loops over a result's cursor take a number of rounds, and more rounds than rows are
-- enough. The texts of verbs' numbers (`std::to_string` of a Boost enumerator) are a parameter, `label`;
-- the theorems on the table assume that distinct verbs have distinct texts.
--
-- Not modelled: what Boost.Asio does inside a call, the signal masks of the threads that src/main.cpp sets,
-- logging, and the SQL of migrations/: what the server does with a statement is a parameter.
pub mod Prelude
pub mod Effect
pub mod Platform
pub mod Models
pub mod Http
pub mod Database
pub mod Mappers
pub mod Base64
pub mod JsonUtils
pub mod Storage
pub mod Repository
pub mod Handlers
pub mod Api
pub mod Requests
pub mod Server
pub mod Bench
