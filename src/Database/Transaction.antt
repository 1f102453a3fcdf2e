-- ===== src/Database/Transaction.antt =====
-- `PostgresTransaction` of src/repository/postgres_connection.cpp, and `BeginTransaction`. The methods
-- act on the object and the world; what they changed of either stays when they throw.
use profile_service_cpp.Prelude.{String, Bool, true, false, not, ◌&&◌, List, if◌then◌else◌}
use profile_service_cpp.Platform.{Platform}
use profile_service_cpp.Effect.{ok, throw, Action, ret, try_catch, ◌>>=◌, ◌>>◌}
use profile_service_cpp.Database.Value.{DbValue}
use profile_service_cpp.Database.ResultSet.{PostgresResultSet, new_result_set}
use profile_service_cpp.Database.Connection.{PostgresConnection, is_open, execute_with_params}

pub record PostgresTransaction (P : Platform) : Type 0 where
  pub has_txn : Bool
  pub committed : Bool
  pub world : P.World

module _ (P : Platform) where
  abbrev pub Method : Type 0 → Type 0
  Method = Action (PostgresTransaction P)

  -- a call of libpqxx from a method
  abbrev outside : {A : Type 0} → Action P.World A → Method A
  outside m t = let (r, w) = m t.world in (r, record t { world = w })

  abbrev set_committed : Method (Unit {0})
  set_committed t = (ok tt, record t { committed = true })

  -- the constructor
  unfoldable pub new_transaction : Action P.World (PostgresTransaction P)
  new_transaction = do
    P.begin_work
    (λ w. (ok (record { has_txn = true; committed = false; world = w }), w))

  -- the destructor: what the abort throws is dropped
  unfoldable pub destroy : Method (Unit {0})
  destroy t =
      if not t.committed && t.has_txn
      then try_catch (outside P.abort_work) (λ _. ret tt) t
      else (ok tt, t)

  unfoldable pub execute : String → Method (PostgresResultSet P)
  execute query = do rows ← outside (P.exec query); ret (new_result_set P rows)

  unfoldable pub execute_params : String → List (DbValue P) → Method (PostgresResultSet P)
  unfolding execute_with_params
  execute_params query params = do
    rows ← outside (execute_with_params P query params)
    ret (new_result_set P rows)

  unfoldable pub commit : Method (Unit {0})
  commit t =
      if t.has_txn && not t.committed
      then (do outside P.commit_work; set_committed) t
      else (ok tt, t)

  unfoldable pub rollback : Method (Unit {0})
  rollback t =
      if t.has_txn && not t.committed
      then (do outside P.abort_work; set_committed) t
      else (ok tt, t)

  unfoldable pub begin_transaction : PostgresConnection → Action P.World (PostgresTransaction P)
  unfolding is_open new_transaction
  begin_transaction c w =
      if is_open P c w then new_transaction w else (throw "Connection is not open", w)
