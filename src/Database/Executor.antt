-- ===== src/Database/Executor.antt =====
-- `QueryExecutor` of src/repository/query_executor.cpp and query_executor.hpp: statements through a
-- connection that may be missing or closed.
use profile_service_cpp.Prelude.{String, Option, none, some, List, [], ◌∷◌, if◌then◌else◌}
use profile_service_cpp.Platform.{Platform}
use profile_service_cpp.Effect.{ok, throw, Action, ret, ◌>>=◌}
use profile_service_cpp.Database.Value.{DbValue}
use profile_service_cpp.Database.ResultSet.{PostgresResultSet}
use profile_service_cpp.Database.Connection.{PostgresConnection, is_open, execute, execute_params}
use profile_service_cpp.Database.Transaction.{
  PostgresTransaction, destroy, commit, begin_transaction,
}

pub record QueryExecutor : Type 0 where
  pub connection : Option PostgresConnection

module _ (P : Platform) where
  abbrev Act : Type 0 → Type 0
  Act = Action P.World

  -- `!m_connection || !m_connection->IsOpen()` throws; otherwise the connection.
  unfoldable pub open_connection : QueryExecutor → Act PostgresConnection
  unfolding is_open
  open_connection x w = elim x.connection [
    | none ↦ (throw "Database connection is not open", w)
    | some c ↦ if is_open P c w then (ok c, w) else (throw "Database connection is not open", w)
  ]

  abbrev run : PostgresConnection → String → List (DbValue P) → Act (PostgresResultSet P)
  run c query [] = execute P c query
  run c query (p ∷ ps) = execute_params P c query (p ∷ ps)

  unfoldable pub execute_select :
      QueryExecutor → String → List (DbValue P) → Act (PostgresResultSet P)
  unfolding open_connection execute execute_params
  execute_select x query params = do c ← open_connection x; run c query params

  unfoldable pub execute_modify : QueryExecutor → String → List (DbValue P) → Act (Unit {0})
  unfolding open_connection execute execute_params
  execute_modify x query params = do c ← open_connection x; result ← run c query params; ret tt

  -- `ExecuteInTransaction`: the operation works on the transaction, and the destructor runs on every way
  -- out.
  unfoldable pub execute_in_transaction :
      QueryExecutor → Action (PostgresTransaction P) (Unit {0}) → Act (Unit {0})
  unfolding open_connection begin_transaction commit destroy
  execute_in_transaction x operation = do
    c ← open_connection x
    txn ← begin_transaction P c
    (λ w.
        let (r, used) = (operation >>= λ _. commit P) (record txn { world = w }) in
        let (_, gone) = destroy P used in (r, gone.world))
