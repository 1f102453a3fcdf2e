-- ===== src/Database/Atomic.antt =====
-- What the connection and the query executor leave of a statement: all of it or nothing.
use profile_service_cpp.Prelude.{String, true, false, some, List, ◌≡◌, ◌∙◌, refl, ap, arith}
use profile_service_cpp.Platform.{Platform}
use profile_service_cpp.Effect.{ok, throw, Action, ret, ◌>>=◌}
use profile_service_cpp.Effect.Laws.{bind-ok, bind-throw}
use profile_service_cpp.Database.Value.{DbValue}
use profile_service_cpp.Database.ResultSet.{new_result_set}
use profile_service_cpp.Database.Connection.{
  PostgresConnection, is_open, guard_open, with_work, execute_with_params, execute_params,
}
use profile_service_cpp.Database.Transaction.{
  PostgresTransaction, new_transaction, destroy, commit, begin_transaction,
}
use profile_service_cpp.Database.Executor.{QueryExecutor, open_connection, execute_in_transaction}

module _ (P : Platform) (c : PostgresConnection) where
  -- a block that succeeds, in a work of its own
  with_work-commits :
      {A : Type 0} (body : Action P.World A) {a : A} (w w1 w2 w3 : P.World)
      → P.begin_work w ≡ (ok tt, w1)
      → body w1 ≡ (ok a, w2)
      → P.commit_work w2 ≡ (ok tt, w3)
      → with_work P body w ≡ (ok a, w3)
  with_work-commits body w w1 w2 w3 begun ran committed = ground arith

  -- On an open connection, where no call of libpqxx throws, a statement with parameters begins a work,
  -- runs and commits, and its rows are the result.
  pub execute_params-commits :
      (query : String) (params : List (DbValue P)) (rows : List P.Row) (w w1 w2 w3 : P.World)
      → is_open P c w ≡ true
      → P.begin_work w ≡ (ok tt, w1)
      → execute_with_params P query params w1 ≡ (ok rows, w2)
      → P.commit_work w2 ≡ (ok tt, w3)
      → execute_params P c query params w ≡ (ok (new_result_set P rows), w3)
  unfolding execute_params
  execute_params-commits query params rows w w1 w2 w3 opened begun ran committed =
      bind-ok (guard_open P c)
        (λ _. with_work P (execute_with_params P query params) >>= λ found.
          ret (new_result_set P found))
        w (rw opened refl)
      ∙ bind-ok (with_work P (execute_with_params P query params))
          (λ found. ret (new_result_set P found)) w
          (with_work-commits (execute_with_params P query params) w w1 w2 w3 begun ran committed)

  -- the transaction as `BeginTransaction` makes it
  abbrev pub begun_transaction : P.World → PostgresTransaction P
  begun_transaction w = record { has_txn = true; committed = false; world = w }

  abbrev pub over : QueryExecutor
  over = record { connection = some c }

  opened_connection : (w : P.World) → is_open P c w ≡ true → open_connection P over w ≡ (ok c, w)
  unfolding open_connection
  opened_connection w opened = rw opened refl

  begun_as :
      (w w1 : P.World)
      → is_open P c w ≡ true
      → P.begin_work w ≡ (ok tt, w1)
      → begin_transaction P c w ≡ (ok (begun_transaction w1), w1)
  unfolding begin_transaction new_transaction
  begun_as w w1 opened begun = rw opened (ground arith)

  committed_as :
      (w2 w3 : P.World)
      → P.commit_work w2 ≡ (ok tt, w3)
      → commit P (begun_transaction w2)
        ≡ (ok tt, record { has_txn = true; committed = true; world = w3 })
  unfolding commit
  committed_as w2 w3 h = ground arith

  destroyed_as : (w2 : P.World) → (destroy P (begun_transaction w2)).1.world ≡ (P.abort_work w2).1
  unfolding destroy
  destroyed_as w2 = ground arith

  -- the operation on the transaction, its commit and the destructor
  abbrev finish :
      Action (PostgresTransaction P) (Unit {0}) → PostgresTransaction P → Action P.World (Unit {0})
  finish operation txn w =
      let (r, used) = (operation >>= λ _. commit P) (record txn { world = w }) in
      let (_, gone) = destroy P used in (r, gone.world)

  finish_throws :
      (operation : Action (PostgresTransaction P) (Unit {0})) (e : String) (w1 w2 : P.World)
      → (operation >>= λ _. commit P) (begun_transaction w1) ≡ (throw e, begun_transaction w2)
      → finish operation (begun_transaction w1) w1 ≡ (throw e, (P.abort_work w2).1)
  finish_throws operation e w1 w2 h = rw h (ap (λ v. (throw e, v)) (destroyed_as w2))

  finish_commits :
      (operation : Action (PostgresTransaction P) (Unit {0})) (w1 w3 : P.World)
      → (operation >>= λ _. commit P) (begun_transaction w1)
        ≡ (ok tt, record { has_txn = true; committed = true; world = w3 })
      → finish operation (begun_transaction w1) w1 ≡ (ok tt, w3)
  unfolding destroy
  finish_commits operation w1 w3 h = rw h refl

  started :
      (operation : Action (PostgresTransaction P) (Unit {0})) (w w1 : P.World)
      → is_open P c w ≡ true
      → P.begin_work w ≡ (ok tt, w1)
      → execute_in_transaction P over operation w ≡ finish operation (begun_transaction w1) w1
  unfolding execute_in_transaction
  started operation w w1 opened begun =
      bind-ok (open_connection P over) (λ d. begin_transaction P d >>= finish operation) w
        (opened_connection w opened)
      ∙ bind-ok (begin_transaction P c) (finish operation) w (begun_as w w1 opened begun)

  -- Where the operation throws and has not ended the transaction, `ExecuteInTransaction` throws what it
  -- threw, and the world is as the abort of the work leaves it.
  pub execute_in_transaction_aborts :
      (operation : Action (PostgresTransaction P) (Unit {0})) (e : String) (w w1 w2 : P.World)
      → is_open P c w ≡ true
      → P.begin_work w ≡ (ok tt, w1)
      → operation (begun_transaction w1) ≡ (throw e, begun_transaction w2)
      → execute_in_transaction P over operation w ≡ (throw e, (P.abort_work w2).1)
  execute_in_transaction_aborts operation e w w1 w2 opened begun failed =
      started operation w w1 opened begun
      ∙ finish_throws operation e w1 w2
          (bind-throw operation (λ _. commit P) (begun_transaction w1) failed)

  -- Where the operation succeeds and has not ended the transaction, and the commit succeeds,
  -- `ExecuteInTransaction` succeeds, and the world is as the commit leaves it.
  pub execute_in_transaction_commits :
      (operation : Action (PostgresTransaction P) (Unit {0})) (w w1 w2 w3 : P.World)
      → is_open P c w ≡ true
      → P.begin_work w ≡ (ok tt, w1)
      → operation (begun_transaction w1) ≡ (ok tt, begun_transaction w2)
      → P.commit_work w2 ≡ (ok tt, w3)
      → execute_in_transaction P over operation w ≡ (ok tt, w3)
  execute_in_transaction_commits operation w w1 w2 w3 opened begun done committed =
      started operation w w1 opened begun
      ∙ finish_commits operation w1 w3 (
          bind-ok operation (λ _. commit P) (begun_transaction w1) done
          ∙ committed_as w2 w3 committed)
