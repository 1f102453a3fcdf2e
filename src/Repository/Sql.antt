-- ===== src/Repository/Sql.antt =====
-- What the repositories rely on of PostgreSQL and libpqxx: while the connection is open, a work begins and
-- commits, and a field of text or of truth is read as what it holds.
use profile_service_cpp.Prelude.{
  String, Bool, true, false, Option, none, some, List, ◌∷◌, map, ◌≡◌, ◌∙◌, refl, ap, arith,
}
use profile_service_cpp.Platform.{Platform}
use profile_service_cpp.Effect.{ok, throw, Action, ◌>>=◌, ◌>>◌, ret, raise, try_catch}
use profile_service_cpp.Effect.Laws.{bind-ok, bind-throw, try_catch-throw, after-raise}
use profile_service_cpp.Database.Value.{DbValue, convert_value}
use profile_service_cpp.Database.Row.{
  is_null, get_value, convert_field, get_string_value, get_bool_value,
}
use profile_service_cpp.Database.ResultSet.{new_result_set}
use profile_service_cpp.Database.Connection.{
  PostgresConnection, is_open, guard_open, with_work, execute_with_params, execute_params,
}
use profile_service_cpp.Database.Executor.{
  QueryExecutor, open_connection, execute_select, execute_modify,
}
use profile_service_cpp.Database.Atomic.{execute_params-commits}

pub record SqlServer (P : Platform) : Type 0 where
  -- the world after a work has begun, and after it has been committed
  pub begun : P.World → P.World
  pub committed : P.World → P.World
  pub begin_law : (w : P.World) → P.is_open w ≡ true → P.begin_work w ≡ (ok tt, begun w)
  pub commit_law : (w : P.World) → P.is_open w ≡ true → P.commit_work w ≡ (ok tt, committed w)
  pub begun_open : (w : P.World) → P.is_open w ≡ true → P.is_open (begun w) ≡ true
  pub committed_open : (w : P.World) → P.is_open w ≡ true → P.is_open (committed w) ≡ true
  -- a field of type VARCHAR with a text, one of type TEXT, one with a truth value, and a null
  pub text : String → P.Field
  pub long_text : String → P.Field
  pub flag : Bool → P.Field
  pub null : P.Field
  pub text_law :
      (s : String)
      → (P.field_is_null (text s) ≡ false)
        × (P.type_name (text s) ≡ ok "varchar")
        × (P.as_string (text s) ≡ ok s)
  pub long_text_law :
      (s : String)
      → (P.field_is_null (long_text s) ≡ false)
        × (P.type_name (long_text s) ≡ ok "text")
        × (P.as_string (long_text s) ≡ ok s)
  pub flag_law :
      (b : Bool)
      → (P.field_is_null (flag b) ≡ false)
        × (P.type_name (flag b) ≡ ok "bool")
        × (P.as_bool (flag b) ≡ ok b)
  pub null_law : P.field_is_null null ≡ true

-- a field for a text that may be absent
abbrev pub optional_text : {P : Platform} → SqlServer P → Option String → P.Field
optional_text server none = server.null
optional_text server (some s) = server.text s

abbrev pub optional_long_text : {P : Platform} → SqlServer P → Option String → P.Field
optional_long_text server none = server.null
optional_long_text server (some s) = server.long_text s

module _ (P : Platform) (server : SqlServer P) where
  pub get_string_value-text :
      (row : P.Row) (column s : String)
      → P.column row column ≡ ok (server.text s)
      → get_string_value P (some row) column ≡ ok (some s)
  unfolding get_string_value is_null get_value convert_field
  get_string_value-text row column s h = ground (arith, server.text_law s)

  pub get_string_value-null :
      (row : P.Row) (column : String)
      → P.column row column ≡ ok server.null
      → get_string_value P (some row) column ≡ ok none
  unfolding get_string_value is_null get_value
  get_string_value-null row column h = ground (arith, server.null_law)

  pub get_string_value-optional :
      (row : P.Row) (column : String) (o : Option String)
      → P.column row column ≡ ok (optional_text server o)
      → get_string_value P (some row) column ≡ ok o
  get_string_value-optional row column none h = get_string_value-null row column h
  get_string_value-optional row column (some s) h = get_string_value-text row column s h

  get_string_value-long_text :
      (row : P.Row) (column s : String)
      → P.column row column ≡ ok (server.long_text s)
      → get_string_value P (some row) column ≡ ok (some s)
  unfolding get_string_value is_null get_value convert_field
  get_string_value-long_text row column s h = ground (arith, server.long_text_law s)

  pub get_string_value-optional_long :
      (row : P.Row) (column : String) (o : Option String)
      → P.column row column ≡ ok (optional_long_text server o)
      → get_string_value P (some row) column ≡ ok o
  get_string_value-optional_long row column none h = get_string_value-null row column h
  get_string_value-optional_long row column (some s) h = get_string_value-long_text row column s h

  pub get_bool_value-flag :
      (row : P.Row) (column : String) (b : Bool)
      → P.column row column ≡ ok (server.flag b)
      → get_bool_value P (some row) column ≡ ok (some b)
  unfolding get_bool_value is_null get_value convert_field
  get_bool_value-flag row column b h = ground (arith, server.flag_law b)

  -- the executor over an open connection
  abbrev pub open_executor : QueryExecutor
  open_executor = record {
    connection = some (record { has_connection = true; is_open_flag = true });
  }

  opens :
      (w : P.World)
      → P.is_open w ≡ true
      → open_connection P open_executor w
        ≡ (ok (record { has_connection = true; is_open_flag = true }), w)
  unfolding open_connection is_open
  opens w opened = rw opened refl

  module _ (query : String) (p : DbValue P) (ps : List (DbValue P)) (rows : List P.Row)
      (w w2 : P.World) (opened : P.is_open w ≡ true)
      (ran : P.exec_params query (convert_value P p ∷ map (convert_value P) ps) (server.begun w)
        ≡ (ok rows, w2))
      (still : P.is_open w2 ≡ true) where
    runs :
        execute_params P (record { has_connection = true; is_open_flag = true }) query (p ∷ ps) w
        ≡ (ok (new_result_set P rows), server.committed w2)
    unfolding is_open execute_with_params
    runs =
        execute_params-commits P _ query (p ∷ ps) rows w (server.begun w) w2 (server.committed w2)
          opened (server.begin_law w opened) ran (server.commit_law w2 still)

    pub execute_select-runs :
        execute_select P open_executor query (p ∷ ps) w
        ≡ (ok (new_result_set P rows), server.committed w2)
    unfolding execute_select
    execute_select-runs =
        bind-ok (open_connection P open_executor) (λ c. execute_params P c query (p ∷ ps)) w
          (opens w opened)
        ∙ runs

    pub execute_modify-runs :
        execute_modify P open_executor query (p ∷ ps) w ≡ (ok tt, server.committed w2)
    unfolding execute_modify
    execute_modify-runs =
        bind-ok (open_connection P open_executor)
          (λ c. execute_params P c query (p ∷ ps) >>= λ result. ret tt) w (opens w opened)
        ∙ bind-ok
            (execute_params P (record { has_connection = true; is_open_flag = true }) query
              (p ∷ ps))
            (λ result. ret tt) w runs

  -- a statement that PostgreSQL refuses: an exception is thrown
  module _ (query : String) (p : DbValue P) (ps : List (DbValue P)) (e : String) (w : P.World)
      (opened : P.is_open w ≡ true)
      (ran : (P.exec_params query (convert_value P p ∷ map (convert_value P) ps) (server.begun w)).0
        ≡ throw e) where
    abbrev body : Action P.World (List P.Row)
    body = execute_with_params P query (p ∷ ps)

    abbrev work : Action P.World (List P.Row)
    work = do result ← body; P.commit_work; ret result

    abbrev aborting : String → Action P.World (List P.Row)
    aborting what = do try_catch P.abort_work (λ _. ret tt); raise what

    refused_work : (t : String) × (w3 : P.World) × (with_work P body w ≡ (throw t, w3))
    unfolding execute_with_params
    refused_work =
        let w2 = (body (server.begun w)).1 in
        let (t, w3, same) =
          after-raise {A = List P.Row} (try_catch P.abort_work (λ _. ret tt)) e w2 in
        (
          t,
          w3,
          bind-ok P.begin_work (λ _. try_catch work aborting) w (server.begin_law w opened)
              ∙ try_catch-throw work aborting (server.begun w) (
                  bind-throw body (λ result. P.commit_work >>= λ _. ret result) (server.begun w)
                    {e = e} {w' = w2} (ap (λ r. (r, w2)) ran))
              ∙ same,
        )

    refused_params :
        (t : String) × (w3 : P.World) × (execute_params P
            (record { has_connection = true; is_open_flag = true })
            query
            (p ∷ ps)
            w
          ≡ (throw t, w3))
    unfolding execute_params is_open
    refused_params =
        let (t, w3, same) = refused_work in
        let c : PostgresConnection = record { has_connection = true; is_open_flag = true } in
        let guarded : guard_open P c w ≡ (ok tt, w) = rw opened refl in
        (
          t,
          w3,
          bind-ok (guard_open P c) (λ _. with_work P body >>= λ rows. ret (new_result_set P rows)) w
                guarded
              ∙ bind-throw (with_work P body) (λ rows. ret (new_result_set P rows)) w same,
        )

    pub execute_modify-refused :
        (t : String) × (w3 : P.World) × (execute_modify P open_executor query (p ∷ ps) w
          ≡ (throw t, w3))
    unfolding execute_modify
    execute_modify-refused =
        let (t, w3, same) = refused_params in
        (
          t,
          w3,
          bind-ok (open_connection P open_executor)
                (λ c. execute_params P c query (p ∷ ps) >>= λ result. ret tt) w (opens w opened)
              ∙ bind-throw
                  (execute_params P (record { has_connection = true; is_open_flag = true }) query
                    (p ∷ ps))
                  (λ result. ret tt) w same,
        )
