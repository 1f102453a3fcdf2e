-- ===== src/Server/Program.antt =====
-- src/main.cpp, up to the wait for a signal, after which it stops the server and returns 0.
use profile_service_cpp.Prelude.{
  ℕ, String, Bool, true, false, not, none, some, List, ◌≡◌, ◌⊎◌, inl, inr, arith, if◌then◌else◌,
}
use profile_service_cpp.Platform.{Platform}
use profile_service_cpp.Effect.{ok, throw, Action, ret, lift, try_catch, ◌>>=◌}
use profile_service_cpp.Http.{Verb}
use profile_service_cpp.Server.ServerImpl.{Endpoint, ServerImpl, initialize_components}
use profile_service_cpp.Server.ServerImpl.Laws.{
  ready, initialize_components_ok, initialize_components_throws,
}
use profile_service_cpp.Server.System.{new_system}

-- The process returns with an exit code, or its server has been started and it waits.
pub data Outcome : Type 0 where
  exits : ℕ → Outcome
  serves : ServerImpl → Outcome

-- What `Start` returns where the flag was as given.
unfoldable pub start_returns : Bool → Bool
start_returns running = not running

module _ (P : Platform) where
  -- from the test of the variable on
  unfoldable pub run_server : (Verb → String) → Endpoint → Action P.World Outcome
  unfolding start_returns
  run_server label endpoint = elim (P.getenv "DATABASE_URL") [
    | none ↦ ret (exits 1)
    | some db_url ↦ (do
      impl ← initialize_components P label endpoint
      (λ w. ret (if start_returns (new_system P w).running then serves impl else exits 1) w))
  ]

  unfoldable pub main : (Verb → String) → List String → Action P.World Outcome
  unfolding run_server
  main label args =
      try_catch
        (do
          (help, address, port) ← lift (P.parse_command_line args)
          (if help
              then ret (exits 0)
              else run_server label (record { address = address; port = port })))
        (λ _. ret (exits 1))

  module _ (label : Verb → String) (endpoint : Endpoint) (w : P.World) {w1 : P.World} where
    started :
        {db_url : String} {impl : ServerImpl}
        → P.getenv "DATABASE_URL" ≡ some db_url
        → initialize_components P label endpoint w ≡ (ok impl, w1)
        → run_server label endpoint w ≡ (ok (serves impl), w1)
    unfolding run_server
    started url h = ground arith

    missing :
        P.getenv "DATABASE_URL" ≡ none → w1 ≡ w → run_server label endpoint w ≡ (ok (exits 1), w1)
    unfolding run_server
    missing url same = ground arith

    unreached :
        {db_url e : String}
        → P.getenv "DATABASE_URL" ≡ some db_url
        → initialize_components P label endpoint w ≡ (throw e, w1)
        → run_server label endpoint w ≡ (throw e, w1)
    unfolding run_server
    unreached url h = ground arith

  module _ (label : Verb → String) (args : List String) {address : String} {port : ℕ}
      (parsed : P.parse_command_line args ≡ ok (false, address, port)) where
    main_runs :
        (w : P.World) {o : Outcome} {w1 : P.World}
        → run_server label (record { address = address; port = port }) w ≡ (ok o, w1)
        → main label args w ≡ (ok o, w1)
    unfolding main
    main_runs w h = ground arith

    main_catches :
        (w : P.World) {e : String} {w1 : P.World}
        → run_server label (record { address = address; port = port }) w ≡ (throw e, w1)
        → main label args w ≡ (ok (exits 1), w1)
    unfolding main
    main_catches w h = ground arith

    -- With a command line that does not ask for help, a database URL and a connection that opens, the
    -- program starts a server over that connection, with the address and the port of the command line, and
    -- waits.
    pub main_serves :
        {db_url : String} (w : P.World) {w1 : P.World}
        → P.getenv "DATABASE_URL" ≡ some db_url
        → P.connect db_url w ≡ (ok tt, w1)
        → P.is_open w1 ≡ true
        → main label args w
          ≡ (ok (serves (ready P label (record { address = address; port = port }))), w1)
    main_serves w url connected opened =
        main_runs w
          (started label _ w url (initialize_components_ok P url connected opened label _))

    -- With a command line that does not ask for help, the program exits with 1 where there is no database
    -- URL, and then leaves the world alone, and where the connection cannot be made.
    pub main_exits :
        (w : P.World) {w1 : P.World}
        → ((P.getenv "DATABASE_URL" ≡ none) × (w1 ≡ w))
          ⊎ ((db_url : String) × (e : String) × (P.getenv "DATABASE_URL" ≡ some db_url)
              × (P.connect db_url w ≡ (throw e, w1)))
        → main label args w ≡ (ok (exits 1), w1)
    main_exits w (inl (url, same)) = main_runs w (missing label _ w url same)
    main_exits w (inr (db_url, e, url, failed)) =
        main_catches w (unreached label _ w url (initialize_components_throws P url failed label _))
