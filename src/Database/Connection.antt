-- ===== src/Database/Connection.antt =====
-- `PostgresConnection` of src/repository/postgres_connection.cpp, with
-- `PostgresTransaction::ExecuteWithParams`, which it calls. libpqxx's connection is in the world; the
-- object holds whether it has one and the flag `m_isOpen`.
use profile_service_cpp.Prelude.{
  String, ◌<>◌, Bool, true, false, ◌&&◌, List, [], ◌∷◌, map, if◌then◌else◌,
}
use profile_service_cpp.Platform.{Platform}
use profile_service_cpp.Effect.{ok, throw, Action, ret, raise, try_catch, ◌>>=◌, ◌>>◌}
use profile_service_cpp.Database.Value.{DbValue, convert_value}
use profile_service_cpp.Database.ResultSet.{PostgresResultSet, new_result_set}

pub record PostgresConnection : Type 0 where
  pub has_connection : Bool
  pub is_open_flag : Bool

module _ (P : Platform) where
  abbrev Act : Type 0 → Type 0
  Act = Action P.World

  -- the constructor
  unfoldable pub new_connection : String → Act PostgresConnection
  new_connection connection_string =
      try_catch
        (do
          P.connect connection_string
          (λ w.
              if P.is_open w
              then (ok (record { has_connection = true; is_open_flag = true }), w)
              else (throw "Failed to connect to PostgreSQL", w)))
        (λ what. raise ("PostgreSQL connection error: " <> what))

  unfoldable pub is_open : PostgresConnection → P.World → Bool
  is_open c w = c.is_open_flag && c.has_connection && P.is_open w

  -- `PostgresTransaction::ExecuteWithParams`, on the open `pqxx::work`
  unfoldable pub execute_with_params : String → List (DbValue P) → Act (List P.Row)
  unfolding convert_value
  execute_with_params query [] = P.exec query
  execute_with_params query (p ∷ ps) =
      P.exec_params query (convert_value P p ∷ map (convert_value P) ps)

  -- A block with a local `pqxx::work`: its destructor aborts what was not committed when an exception
  -- leaves the block, and drops what the abort throws.
  abbrev pub with_work : {A : Type 0} → Act A → Act A
  with_work body = do
    P.begin_work
    try_catch (do result ← body; P.commit_work; ret result)
        (λ what. do try_catch P.abort_work (λ _. ret tt); raise what)

  abbrev pub guard_open : PostgresConnection → Act (Unit {0})
  guard_open c w = if is_open c w then (ok tt, w) else (throw "Connection is not open", w)

  unfoldable pub execute : PostgresConnection → String → Act (PostgresResultSet P)
  unfolding is_open
  execute c query = do guard_open c; rows ← with_work (P.exec query); ret (new_result_set P rows)

  unfoldable pub execute_params :
      PostgresConnection → String → List (DbValue P) → Act (PostgresResultSet P)
  unfolding is_open execute_with_params
  execute_params c query params = do
    guard_open c
    rows ← with_work (execute_with_params query params)
    ret (new_result_set P rows)

  -- `Close()`: what `pqxx::connection::close` throws is dropped.
  unfoldable pub close : PostgresConnection → Act PostgresConnection
  close c =
      if c.has_connection
      then (do try_catch P.close (λ _. ret tt); ret (record c { is_open_flag = false }))
      else ret c
