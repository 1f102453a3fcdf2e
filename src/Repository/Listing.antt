-- ===== src/Repository/Listing.antt =====
-- The `List` operations of the repositories over rows that are mapped one after the other, each at the time
-- of its reading.
use profile_service_cpp.Prelude.{
  String, Option, some, true, List, [], ◌∷◌, ◌++◌, map, ◌≡◌, ◌∙◌, sym, ap,
}
use mathlib.Core.List.{append_assoc, append-nil}
use profile_service_cpp.Platform.{Platform}
use profile_service_cpp.Effect.{ok, Action, ◌>>=◌}
use profile_service_cpp.Effect.Laws.{bind-ok}
use profile_service_cpp.Database.Value.{DbValue, convert_value}
use profile_service_cpp.Database.Executor.{execute_select}
use profile_service_cpp.Repository.Rows.{map_rows}
use profile_service_cpp.Repository.Laws.{traverse, map_rows-eq-traverse}
use profile_service_cpp.Repository.Sql.{SqlServer, open_executor, execute_select-runs}

-- the items that stored entries are read as, from a world on, and the world behind them
abbrev pub items : {X A W : Type 0} → (X → W → A) → (W → W) → List X → W → List A
items item tick [] w = []
items item tick (e ∷ es) w = item e w ∷ items item tick es (tick w)

abbrev after_items : {X W : Type 0} → (W → W) → List X → W → W
after_items tick [] w = w
after_items tick (e ∷ es) w = after_items tick es (tick w)

module _ (P : Platform) (server : SqlServer P) {X A : Type 0} (row : X → P.Row)
    (map_row : Option P.Row → Action P.World A) (item : X → P.World → A) (tick : P.World → P.World)
    (map_law : (e : X) (w : P.World) → map_row (some (row e)) w ≡ (ok (item e w), tick w)) where
  traverse-items :
      (found : List A) (es : List X) (w : P.World)
      → traverse P map_row found (map row es) w
        ≡ (ok (found ++ items item tick es w), after_items tick es w)
  unfolding traverse
  traverse-items found [] w = ap (λ all. (ok all, w)) (sym (append-nil found))
  traverse-items found (e ∷ es) w =
      bind-ok (map_row (some (row e))) (λ a. traverse P map_row (found ++ a ∷ []) (map row es)) w
        (map_law e w)
      ∙ traverse-items (found ++ item e w ∷ []) es (tick w)
      ∙ ap (λ all. (ok all, after_items tick es (tick w)))
          (append_assoc found (item e w ∷ []) (items item tick es (tick w)))

  -- a select whose rows are mapped, over an open connection
  pub select-items :
      (query : String) (p : DbValue P) (ps : List (DbValue P)) (es : List X) (w w2 : P.World)
      → P.is_open w ≡ true
      → P.exec_params query (convert_value P p ∷ map (convert_value P) ps) (server.begun w)
        ≡ (ok (map row es), w2)
      → P.is_open w2 ≡ true
      → ((execute_select P (open_executor P server) query (p ∷ ps) >>= map_rows P map_row) w).0
        ≡ ok (items item tick es (server.committed w2))
  select-items query p ps es w w2 opened ran still =
      ap (λ t. t.0)
        (bind-ok (execute_select P (open_executor P server) query (p ∷ ps)) (map_rows P map_row) w
            (execute_select-runs P server query p ps (map row es) w w2 opened ran still)
          ∙ map_rows-eq-traverse P map_row (map row es) (server.committed w2)
          ∙ traverse-items [] es (server.committed w2))
