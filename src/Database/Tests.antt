-- ===== src/Database/Tests.antt =====
-- Statements and transactions on a concrete platform.
use profile_service_cpp.Prelude.{true, false, [], ◌∷◌, ◌≡◌, refl}
use profile_service_cpp.Effect.{ok, throw, Action, ◌>>◌}
use profile_service_cpp.Database.Value.{string_value}
use profile_service_cpp.Database.Connection.{PostgresConnection, is_open, execute_with_params}
use profile_service_cpp.Database.Transaction.{PostgresTransaction, rollback, destroy}
use profile_service_cpp.Database.Executor.{execute_in_transaction}
use profile_service_cpp.Database.Atomic.{
  over, execute_in_transaction_aborts, execute_in_transaction_commits,
}
use profile_service_cpp.Database.Ending.{commits, rollbacks, end_by, end_all, end_all-destroy}
use profile_service_cpp.Bench.{bench}

abbrev connection : PostgresConnection
connection = record { has_connection = true; is_open_flag = true }

opened : is_open bench connection [] ≡ true
unfolding is_open
opened = refl

ran :
    execute_with_params bench "SELECT $1" (string_value "x" ∷ []) []
    ≡ (ok (("" ∷ []) ∷ []), "SELECT $1" ∷ [])
unfolding execute_with_params
ran = refl

-- operations that write to the log, one of which throws then
abbrev logged : PostgresTransaction bench → PostgresTransaction bench
logged t = record t { world = "work" ∷ t.world }

abbrev works : Action (PostgresTransaction bench) (Unit {0})
works t = (ok tt, logged t)

abbrev breaks : Action (PostgresTransaction bench) (Unit {0})
breaks t = (throw "broken", logged t)

execute_in_transaction_aborts_example :
    execute_in_transaction bench (over bench connection) breaks []
    ≡ (throw "broken", "abort" ∷ "work" ∷ [])
execute_in_transaction_aborts_example =
    execute_in_transaction_aborts bench connection breaks "broken" [] [] ("work" ∷ []) opened refl
      refl

execute_in_transaction_commits_example :
    execute_in_transaction bench (over bench connection) works [] ≡ (ok tt, "commit" ∷ "work" ∷ [])
execute_in_transaction_commits_example =
    execute_in_transaction_commits bench connection works [] [] ("work" ∷ [])
      ("commit" ∷ "work" ∷ []) opened refl refl refl

abbrev begun : PostgresTransaction bench
begun = record { has_txn = true; committed = false; world = [] }

abbrev rolled_back : PostgresTransaction bench
rolled_back = record { has_txn = true; committed = true; world = "abort" ∷ [] }

rolls_back : end_by bench rollbacks begun ≡ (ok tt, rolled_back)
unfolding rollback
rolls_back = refl

end_all-destroy_example :
    (end_all bench (commits ∷ rollbacks ∷ []) >> destroy bench) rolled_back ≡ (ok tt, rolled_back)
end_all-destroy_example =
    end_all-destroy bench rollbacks (commits ∷ rollbacks ∷ []) begun rolled_back rolls_back
