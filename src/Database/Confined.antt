-- ===== src/Database/Confined.antt =====
-- What the executor touches of the world: the bounds of a work and one statement, and nothing where the
-- connection is not open.
use profile_service_cpp.Prelude.{String, false, List, ◌∷◌, map, ◌≡◌, refl, subst, sym, arith}
use profile_service_cpp.Platform.{Platform}
use profile_service_cpp.Effect.{throw, Action, ret, try_catch, ◌>>=◌}
use profile_service_cpp.Effect.Keeps.{Keeps, Keeps-ret, Keeps-raise, Keeps-bind, Keeps-try_catch}
use profile_service_cpp.Effect.Yields.{
  Yields, Yields-ret, Yields-raise, Yields-try_catch, Yields-bind, Yields-after,
}
use profile_service_cpp.Effect.Laws.{bind-throw}
use profile_service_cpp.Database.Value.{DbValue, convert_value}
use profile_service_cpp.Database.ResultSet.{new_result_set}
use profile_service_cpp.Database.Connection.{
  PostgresConnection, is_open, execute_with_params, execute_params, with_work, guard_open,
}
use profile_service_cpp.Database.Executor.{
  QueryExecutor, open_connection, execute_select, execute_modify,
}

module _ (P : Platform) where
  open_connection-world : (x : QueryExecutor) (w : P.World) → (open_connection P x w).1 ≡ w
  unfolding open_connection
  open_connection-world x w = ground arith

  guard_open-world : (c : PostgresConnection) (w : P.World) → (guard_open P c w).1 ≡ w
  guard_open-world c w = ground arith

  -- the statement that a query with parameters sends
  abbrev pub sent : String → DbValue P → List (DbValue P) → Action P.World (List P.Row)
  sent query p ps = P.exec_params query (convert_value P p ∷ map (convert_value P) ps)

  module _ (I : P.World → Type 0) (began : Keeps I P.begin_work) (committed : Keeps I P.commit_work)
      (aborted : Keeps I P.abort_work) where
    with_work-Keeps :
        {A : Type 0} (body : Action P.World A) → Keeps I body → Keeps I (with_work P body)
    with_work-Keeps body k = Keeps-bind _ _ began λ _.
        Keeps-try_catch _ _ (Keeps-bind _ _ k λ a. Keeps-bind _ _ committed λ _. Keeps-ret a)
          λ what.
            Keeps-bind _ _ (Keeps-try_catch _ _ aborted λ _. Keeps-ret tt) λ _. Keeps-raise what

    module _ (query : String) (p : DbValue P) (ps : List (DbValue P))
        (k : Keeps I (sent query p ps)) where
      execute_params-Keeps : (c : PostgresConnection) → Keeps I (execute_params P c query (p ∷ ps))
      unfolding execute_params execute_with_params
      execute_params-Keeps c =
          Keeps-bind (guard_open P c) _
            (record { at = λ w h. subst I (sym (guard_open-world c w)) h })
            λ _.
              Keeps-bind (with_work P (sent query p ps)) _ (with_work-Keeps (sent query p ps) k)
                λ rows. Keeps-ret (new_result_set P rows)

      pub execute_select-Keeps : (x : QueryExecutor) → Keeps I (execute_select P x query (p ∷ ps))
      unfolding execute_select
      execute_select-Keeps x =
          Keeps-bind (open_connection P x) _
            (record { at = λ w h. subst I (sym (open_connection-world x w)) h })
            execute_params-Keeps

      pub execute_modify-Keeps : (x : QueryExecutor) → Keeps I (execute_modify P x query (p ∷ ps))
      unfolding execute_modify
      execute_modify-Keeps x =
          Keeps-bind (open_connection P x) _
            (record { at = λ w h. subst I (sym (open_connection-world x w)) h })
            λ c.
              Keeps-bind (execute_params P c query (p ∷ ps)) _ (execute_params-Keeps c)
                λ _. Keeps-ret tt

  -- the rows of a select are those that its statement gave
  module _ (query : String) (p : DbValue P) (ps : List (DbValue P)) (T : List P.Row → Type 0)
      (k : Yields T (sent query p ps)) where
    pub execute_select-Yields :
        (x : QueryExecutor)
        → Yields
            (λ r. (rows : List P.Row) × (r ≡ new_result_set P rows) × T rows)
            (execute_select P x query (p ∷ ps))
    unfolding execute_select execute_params execute_with_params
    execute_select-Yields x = Yields-after (open_connection P x) _ λ c.
        Yields-after (guard_open P c) _ λ _.
          Yields-bind T (with_work P (sent query p ps)) _
            (Yields-after P.begin_work _ λ _.
              Yields-try_catch _ _
                (Yields-bind T (sent query p ps) _ k
                  λ rows t. Yields-after P.commit_work _ λ _. Yields-ret rows t)
                λ what.
                  Yields-after (try_catch P.abort_work (λ _. ret tt)) _ λ _. Yields-raise what)
            λ rows t. Yields-ret (new_result_set P rows) (rows, refl, t)

  -- Where the connection is not open, nothing is sent.
  module _ (x : QueryExecutor) (w : P.World) (closed : P.is_open w ≡ false) where
    open_connection-closed : open_connection P x w ≡ (throw "Database connection is not open", w)
    unfolding open_connection is_open
    open_connection-closed = ground arith

    module _ (query : String) (p : DbValue P) (ps : List (DbValue P)) where
      pub execute_select-closed :
          execute_select P x query (p ∷ ps) w ≡ (throw "Database connection is not open", w)
      unfolding execute_select
      execute_select-closed =
          bind-throw (open_connection P x) (λ c. execute_params P c query (p ∷ ps)) w
            open_connection-closed

      pub execute_modify-closed :
          execute_modify P x query (p ∷ ps) w ≡ (throw "Database connection is not open", w)
      unfolding execute_modify
      execute_modify-closed =
          bind-throw (open_connection P x) (λ c. execute_params P c query (p ∷ ps) >>= λ _. ret tt)
            w open_connection-closed
