-- ===== src/Repository/Rows.antt =====
-- What the repositories share: the loop over a result's rows, and the use of its first row.
use profile_service_cpp.Prelude.{
  ℕ, zero, suc, ◌+◌, Option, some, List, [], ◌∷◌, ◌++◌, if◌then◌else◌,
}
use profile_service_cpp.Platform.{Platform}
use profile_service_cpp.Effect.{Action, ret, lift, ◌>>=◌}
use profile_service_cpp.Database.ResultSet.{PostgresResultSet, empty, size, get_row_at}

module _ (P : Platform) {A : Type 0} (map_row : Option P.Row → Action P.World A) where
  -- `for (i = …; i < result->Size(); ++i) found.push_back(MapRow(GetRow(i)))`, on the rounds left
  unfoldable pub push_rows : PostgresResultSet P → ℕ → ℕ → List A → Action P.World (List A)
  unfolding get_row_at
  push_rows result zero i found = ret found
  push_rows result (suc left) i found = do
    row ← lift (get_row_at P result i)
    item ← map_row (some row)
    push_rows result left (i + 1) (found ++ item ∷ [])

  unfoldable pub map_rows : PostgresResultSet P → Action P.World (List A)
  unfolding push_rows empty size
  map_rows result = if empty P result then ret [] else push_rows result (size P result) 0 []

  -- `MapRow(result->GetRow(0))`, or what is done for an empty result
  unfoldable pub first_row : PostgresResultSet P → Action P.World A → Action P.World A
  unfolding empty get_row_at
  first_row result otherwise =
      if empty P result
      then otherwise
      else (do row ← lift (get_row_at P result 0); map_row (some row))
