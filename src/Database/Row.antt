-- ===== src/Database/Row.antt =====
-- `PostgresRow` of src/repository/postgres_connection.cpp, and the readers of one column in
-- src/repository/query_executor.cpp. A pointer to a row may be null.
use profile_service_cpp.Prelude.{
  ℕ, String, Bool, true, false, ◌||◌, ◌==◌, Option, none, some, List, [], if◌then◌else◌,
}
use profile_service_cpp.Platform.{Platform}
use profile_service_cpp.Effect.{Result, ok, catch}
use profile_service_cpp.Effect.Pure.{◌>>=◌}
use profile_service_cpp.Database.Value.{
  DbValue, null_value, bool_value, int64_value, double_value, string_value, blob_value,
}

module _ (P : Platform) where
  open P use {Row, Field}

  -- The value of a field that is not null: the body that both `GetValue` share.
  unfoldable pub convert_field : Field → Result (DbValue P)
  convert_field f =
      catch
        (do
          name ← P.type_name f
          (if name == "bool"
              then (do b ← P.as_bool f; ok (bool_value b))
              else if name == "int2" || name == "int4" || name == "int8"
              then (do n ← P.as_int64 f; ok (int64_value n))
              else if name == "float4" || name == "float8"
              then (do d ← P.as_double f; ok (double_value d))
              else if name == "text"
                  || name == "varchar"
                  || name == "char"
                  || name == "bpchar"
                  || name == "name"
              then (do s ← P.as_string f; ok (string_value s))
              else if name == "bytea"
              then (do blob ← P.as_blob f; ok (blob_value blob))
              else (do s ← P.as_string f; ok (string_value s))))
        (λ _. do s ← P.as_string f; ok (string_value s))

  abbrev field_value : Field → Result (DbValue P)
  field_value f = if P.field_is_null f then ok null_value else convert_field f

  -- `IsNull` and `GetValue`, by index and by column name
  unfoldable pub is_null_at : Row → ℕ → Result Bool
  is_null_at row index = do f ← P.column_at row index; ok (P.field_is_null f)

  unfoldable pub is_null : Row → String → Result Bool
  is_null row column = do f ← P.column row column; ok (P.field_is_null f)

  unfoldable pub get_value_at : Row → ℕ → Result (DbValue P)
  unfolding convert_field
  get_value_at row index = do f ← P.column_at row index; field_value f

  unfoldable pub get_value : Row → String → Result (DbValue P)
  unfolding convert_field
  get_value row column = do f ← P.column row column; field_value f

  unfoldable pub size : Row → ℕ
  size row = P.row_size row

  -- `std::holds_alternative` and `std::get`
  abbrev as_string : DbValue P → Option String
  as_string (string_value s) = some s
  as_string null_value = none
  as_string _ = none

  abbrev as_int64 : DbValue P → Option P.Int64
  as_int64 (int64_value n) = some n
  as_int64 _ = none

  abbrev as_bool : DbValue P → Option Bool
  as_bool (bool_value b) = some b
  as_bool _ = none

  abbrev as_double : DbValue P → Option P.Double
  as_double (double_value d) = some d
  as_double _ = none

  abbrev as_blob : DbValue P → List ℕ
  as_blob (blob_value b) = b
  as_blob _ = []

  -- What the five readers share: nothing for a null row or a null column, and the value's
  -- alternative otherwise.
  abbrev read_column : {A : Type 0} → A → (DbValue P → A) → Option Row → String → Result A
  read_column absent pick none column = ok absent
  read_column absent pick (some row) column = do
    missing ← is_null row column
    (if missing then ok absent else (do value ← get_value row column; ok (pick value)))

  unfoldable pub get_string_value : Option Row → String → Result (Option String)
  unfolding is_null get_value
  get_string_value = read_column none as_string

  unfoldable pub get_int_value : Option Row → String → Result (Option P.Int64)
  unfolding is_null get_value
  get_int_value = read_column none as_int64

  unfoldable pub get_bool_value : Option Row → String → Result (Option Bool)
  unfolding is_null get_value
  get_bool_value = read_column none as_bool

  unfoldable pub get_double_value : Option Row → String → Result (Option P.Double)
  unfolding is_null get_value
  get_double_value = read_column none as_double

  unfoldable pub get_blob_value : Option Row → String → Result (List ℕ)
  unfolding is_null get_value
  get_blob_value = read_column [] as_blob

  unfoldable pub has_column : Option Row → String → Result Bool
  unfolding get_value
  has_column none column = ok false
  has_column (some row) column = catch (do value ← get_value row column; ok true) (λ _. ok false)
