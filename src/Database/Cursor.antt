-- ===== src/Database/Cursor.antt =====
-- Reading a result set through its cursor.
use profile_service_cpp.Prelude.{
  ℕ, zero, suc, ◌+◌, ◌%◌, ◌^◌, ◌≤◌, ◌<◌, true, false, none, some, List, [], ◌∷◌, ◌++◌, length,
  length-append, get_elem?, ◌≡◌, ◌∙◌, sym, ap, refl, arith, if◌then◌else◌,
}
use mathlib.Core.List.{append_assoc}
use profile_service_cpp.Platform.{Platform}
use profile_service_cpp.Database.ResultSet.{PostgresResultSet, new_result_set, get_row, next}

module _ (P : Platform) where
  -- `while (auto row = result->GetRow()) …`, for as many rounds at most
  unfoldable pub read_rows : ℕ → PostgresResultSet P → List P.Row
  read_rows zero r = []
  read_rows (suc rounds) r =
      let (row, r') = get_row P r in
      let rest = read_rows rounds r' in elim row [ none ↦ [] | some x ↦ x ∷ rest ]

  -- `while (result->Next()) { auto row = result->GetRow(); … }`, for as many rounds at most
  unfoldable pub read_next : ℕ → PostgresResultSet P → List P.Row
  read_next zero r = []
  read_next (suc rounds) r =
      let (more, r1) = next P r in
      let (row, r2) = get_row P r1 in
      let rest = read_next rounds r2 in
      if more then elim row [ none ↦ [] | some x ↦ x ∷ rest ] else []

  -- every second row, from the second on
  abbrev pub every_second : List P.Row → List P.Row
  every_second [] = []
  every_second (x ∷ []) = []
  every_second (x ∷ y ∷ rows) = y ∷ every_second rows

  abbrev at : List P.Row → ℕ → PostgresResultSet P
  at rows i = record { rows = rows; current_index = i }

  row_at :
      (before after : List P.Row) (row : P.Row)
      → get_elem? (before ++ row ∷ after) (length before) ≡ some row
  row_at [] after row = refl
  row_at (x ∷ before) after row = row_at before after row

  row_past : (rows : List P.Row) (i : ℕ) → length rows ≤ i → get_elem? rows i ≡ none
  row_past [] i h = refl
  row_past (x ∷ rows) zero h = absurd (omega arith)
  row_past (x ∷ rows) (suc i) h = row_past rows i (omega arith)

  -- The cursor of a result stands behind `before`.
  module _ (rows before : List P.Row) (i : ℕ) (behind : i ≡ length before) where
    get_row_here :
        (row : P.Row) (after : List P.Row)
        → rows ≡ before ++ row ∷ after
        → i + 1 < 2 ^ 64
        → get_row P (at rows i) ≡ (some row, at rows (i + 1))
    unfolding get_row
    get_row_here row after e h =
        let small : (i + 1) % 2 ^ 64 ≡ i + 1 = omega arith in
        let found : get_elem? rows i ≡ some row = rw (e, behind) (row_at before after row) in
        rw (get_row, found, small) refl

    get_row_past : rows ≡ before ++ [] → get_row P (at rows i) ≡ (none, at rows i)
    unfolding get_row
    get_row_past e =
        let past : get_elem? rows i ≡ none =
          row_past rows i (omega (arith, ap length e, length-append before [])) in
        rw (get_row, past) refl

    next_more :
        (row after_row : P.Row) (after : List P.Row)
        → rows ≡ before ++ row ∷ after_row ∷ after
        → i + 1 < 2 ^ 64
        → next P (at rows i) ≡ (true, at rows (i + 1))
    unfolding next
    next_more row after_row after e h =
        let size : length rows ≡ i + 2 + length after =
          omega (arith, ap length e, length-append before (row ∷ after_row ∷ after)) in
        ground arith

    next_last :
        (row : P.Row)
        → rows ≡ before ++ row ∷ []
        → i + 1 < 2 ^ 64
        → next P (at rows i) ≡ (false, at rows (i + 1))
    unfolding next
    next_last row e h =
        let size : length rows ≡ i + 1 =
          omega (arith, ap length e, length-append before (row ∷ [])) in
        ground arith

    next_past : rows ≡ before ++ [] → i + 1 < 2 ^ 64 → next P (at rows i) ≡ (false, at rows (i + 1))
    unfolding next
    next_past e h =
        let size : length rows ≡ i = omega (arith, ap length e, length-append before []) in
        ground arith

    -- the same rows, with the cursor behind one more
    moved :
        (row : P.Row) (after : List P.Row)
        → rows ≡ before ++ row ∷ after
        → rows ≡ (before ++ row ∷ []) ++ after
    moved row after e = e ∙ sym (append_assoc before (row ∷ []) after)

    moved_index : (row : P.Row) → i + 1 ≡ length (before ++ row ∷ [])
    moved_index row = omega (arith, length-append before (row ∷ []))

  module _ (rounds : ℕ) (r : PostgresResultSet P) {r' : PostgresResultSet P} where
    read_rows-none : get_row P r ≡ (none, r') → read_rows (suc rounds) r ≡ []
    unfolding read_rows
    read_rows-none h = ground arith

    read_rows-some :
        {row : P.Row}
        → get_row P r ≡ (some row, r')
        → read_rows (suc rounds) r ≡ row ∷ read_rows rounds r'
    unfolding read_rows
    read_rows-some h = ground arith

    read_next_done : next P r ≡ (false, r') → read_next (suc rounds) r ≡ []
    unfolding read_next
    read_next_done h = ground arith

    read_next-some :
        {r2 : PostgresResultSet P} {row : P.Row}
        → next P r ≡ (true, r')
        → get_row P r' ≡ (some row, r2)
        → read_next (suc rounds) r ≡ row ∷ read_next rounds r2
    unfolding read_next
    read_next-some h k = ground arith

  read_rows-from :
      (rows before after : List P.Row) (i rounds : ℕ)
      → i ≡ length before
      → rows ≡ before ++ after
      → i + length after < 2 ^ 64
      → length after < rounds
      → read_rows rounds (at rows i) ≡ after
  read_rows-from rows before after i zero b e h enough = absurd (omega arith)
  read_rows-from rows before [] i (suc rounds) b e h enough =
      read_rows-none rounds (at rows i) (get_row_past rows before i b e)
  read_rows-from rows before (row ∷ after) i (suc rounds) b e h enough =
      read_rows-some rounds (at rows i) (get_row_here rows before i b row after e (omega arith))
      ∙ ap (λ t. row ∷ t)
          (read_rows-from rows (before ++ row ∷ []) after (i + 1) rounds
            (moved_index rows before i b row) (moved rows before i b row after e) (omega arith)
            (omega arith))

  read_next-from :
      (rows before after : List P.Row) (i rounds : ℕ)
      → i ≡ length before
      → rows ≡ before ++ after
      → i + length after + 1 < 2 ^ 64
      → length after < rounds
      → read_next rounds (at rows i) ≡ every_second after
  read_next-from rows before after i zero b e h enough = absurd (omega arith)
  read_next-from rows before [] i (suc rounds) b e h enough =
      read_next_done rounds (at rows i) (next_past rows before i b e (omega arith))
  read_next-from rows before (x ∷ []) i (suc rounds) b e h enough =
      read_next_done rounds (at rows i) (next_last rows before i b x e (omega arith))
  read_next-from rows before (x ∷ y ∷ after) i (suc rounds) b e h enough =
      let before' = before ++ x ∷ [] in
      let b' = moved_index rows before i b x in
      let e' = moved rows before i b x (y ∷ after) e in
      read_next-some rounds (at rows i) (next_more rows before i b x y after e (omega arith))
        (get_row_here rows before' (i + 1) b' y after e' (omega arith))
      ∙ ap (λ t. y ∷ t)
          (read_next-from rows (before' ++ y ∷ []) after (i + 1 + 1) rounds
            (moved_index rows before' (i + 1) b' y) (moved rows before' (i + 1) b' y after e')
            (omega arith) (omega arith))

  -- Reading a fresh result by `GetRow` until it gives null yields all rows in their order, where their
  -- number fits the cursor and the rounds are more than the rows.
  pub read_rows-eq :
      (rows : List P.Row) (rounds : ℕ)
      → length rows < 2 ^ 64
      → length rows < rounds
      → read_rows rounds (new_result_set P rows) ≡ rows
  read_rows-eq rows rounds h enough =
      read_rows-from rows [] rows 0 rounds refl refl (omega arith) enough

  -- Reading a fresh result by `GetRow` while `Next` is true yields every second row only, from the second
  -- on: both move the cursor.
  pub read_next-eq :
      (rows : List P.Row) (rounds : ℕ)
      → length rows + 1 < 2 ^ 64
      → length rows < rounds
      → read_next rounds (new_result_set P rows) ≡ every_second rows
  read_next-eq rows rounds h enough =
      read_next-from rows [] rows 0 rounds refl refl (omega arith) enough
