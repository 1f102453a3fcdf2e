-- ===== src/Database/ResultSet.antt =====
-- `PostgresResultSet` of src/repository/postgres_connection.cpp: the rows of a result with a cursor.
use profile_service_cpp.Prelude.{
  ℕ, ◌+◌, ◌%◌, ◌^◌, Bool, Option, none, some, List, length, is_empty, get_elem?, ltb,
}
use profile_service_cpp.Platform.{Platform}
use profile_service_cpp.Effect.{Result, ok, throw}

module _ (P : Platform) where
  pub record PostgresResultSet : Type 0 where
    pub rows : List P.Row
    pub current_index : ℕ

  abbrev pub new_result_set : List P.Row → PostgresResultSet
  new_result_set rows = record { rows = rows; current_index = 0 }

  unfoldable pub empty : PostgresResultSet → Bool
  empty r = is_empty r.rows

  unfoldable pub size : PostgresResultSet → ℕ
  size r = length r.rows

  -- `GetRow(index)`: past the end it throws.
  unfoldable pub get_row_at : PostgresResultSet → ℕ → Result P.Row
  get_row_at r index = elim (get_elem? r.rows index) [
    | none ↦ throw "Row index out of range"
    | some row ↦ ok row
  ]

  -- `GetRow()`: the row under the cursor, which moves on; null past the end.
  unfoldable pub get_row : PostgresResultSet → Option P.Row × PostgresResultSet
  get_row r = elim (get_elem? r.rows r.current_index) [
    | none ↦ (none, r)
    | some row ↦ (some row, record r { current_index = (r.current_index + 1) % 2 ^ 64 })
  ]

  -- `Next()` moves the cursor too.
  unfoldable pub next : PostgresResultSet → Bool × PostgresResultSet
  next r =
      let moved = (r.current_index + 1) % 2 ^ 64 in
      (ltb moved (length r.rows), record r { current_index = moved })
