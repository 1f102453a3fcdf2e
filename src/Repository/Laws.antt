-- ===== src/Repository/Laws.antt =====
-- The loop over the rows of a result, by its index.
use profile_service_cpp.Prelude.{
  ℕ, zero, suc, ◌+◌, Option, some, List, [], ◌∷◌, ◌++◌, length, get_elem?, length-append, ◌≡◌, ◌∙◌,
  subst, ap, refl, arith,
}
use mathlib.Core.List.{append_assoc}
use profile_service_cpp.Platform.{Platform}
use profile_service_cpp.Effect.{ok, Action, lift, ◌>>=◌}
use profile_service_cpp.Effect.Laws.{bind-ok, bind-cong}
use profile_service_cpp.Database.ResultSet.{new_result_set, get_row_at, size, empty}
use profile_service_cpp.Repository.Rows.{push_rows, map_rows}

module _ (P : Platform) {A : Type 0} (map_row : Option P.Row → Action P.World A) where
  -- the rows mapped one after the other, behind what has been found
  unfoldable pub traverse : List A → List P.Row → Action P.World (List A)
  traverse found [] w = (ok found, w)
  traverse found (row ∷ rows) w =
      (map_row (some row) >>= λ item. traverse (found ++ item ∷ []) rows) w

  row_at :
      (before after : List P.Row) (row : P.Row) (i : ℕ)
      → length before ≡ i
      → get_elem? (before ++ row ∷ after) i ≡ some row
  row_at [] after row zero h = refl
  row_at [] after row (suc i) h = absurd (omega arith)
  row_at (r ∷ before) after row zero h = absurd (omega arith)
  row_at (r ∷ before) after row (suc i) h = row_at before after row i (omega arith)

  get_row_at_lem :
      (before after : List P.Row) (row : P.Row) (i : ℕ)
      → length before ≡ i
      → get_row_at P (new_result_set P (before ++ row ∷ after)) i ≡ ok row
  unfolding get_row_at
  get_row_at_lem before after row i h = rw (get_row_at, row_at before after row i h) refl

  push_rows-eq :
      (before after : List P.Row) (i : ℕ) (found : List A) (w : P.World)
      → length before ≡ i
      → push_rows P map_row (new_result_set P (before ++ after)) (length after) i found w
        ≡ traverse found after w
  unfolding push_rows traverse
  push_rows-eq before [] i found w h = refl
  push_rows-eq before (row ∷ after) i found w h =
      let all = new_result_set P (before ++ row ∷ after) in
      bind-ok (lift (get_row_at P all i))
        (λ r. map_row (some r) >>= λ item.
          push_rows P map_row all (length after) (i + 1) (found ++ item ∷ []))
        w (ap (λ r. (r, w)) (get_row_at_lem before after row i h))
      ∙ bind-cong (map_row (some row))
          (λ item. push_rows P map_row all (length after) (i + 1) (found ++ item ∷ []))
          (λ item. traverse (found ++ item ∷ []) after) w
          (λ item w'.
            subst
              (λ rows.
                push_rows P map_row (new_result_set P rows) (length after) (i + 1)
                  (found ++ item ∷ []) w'
                ≡ traverse (found ++ item ∷ []) after w')
              (append_assoc before (row ∷ []) after)
              (push_rows-eq (before ++ row ∷ []) after (i + 1) (found ++ item ∷ []) w'
                (omega (arith, length-append before (row ∷ [])))))

  -- The loop over a result maps its rows one after the other in their order, up to the first exception, as
  -- the recursion over the list of rows does.
  pub map_rows-eq-traverse :
      (rows : List P.Row) (w : P.World)
      → map_rows P map_row (new_result_set P rows) w ≡ traverse [] rows w
  unfolding map_rows empty size traverse
  map_rows-eq-traverse [] w = refl
  map_rows-eq-traverse (row ∷ rows) w = push_rows-eq [] (row ∷ rows) 0 [] w refl
