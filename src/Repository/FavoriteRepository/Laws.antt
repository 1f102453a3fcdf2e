-- ===== src/Repository/FavoriteRepository/Laws.antt =====
-- The repository of favorites over a server with the table `favorites`.
use profile_service_cpp.Prelude.{
  String, ◌==◌, Bool, true, false, some, not, ◌&&◌, ◌||◌, List, [], ◌∷◌, map, ◌≡◌, ◌∙◌, refl, ap,
  arith,
}
use profile_service_cpp.Platform.{Platform}
use profile_service_cpp.Effect.{ok, Action, ◌>>◌}
use profile_service_cpp.Effect.Laws.{bind-ok}
use profile_service_cpp.Models.{Favorite}
use profile_service_cpp.Database.Value.{string_value, convert_value}
use profile_service_cpp.Mappers.{map_favorite}
use profile_service_cpp.Repository.Sql.{
  SqlServer, get_string_value-text, open_executor, execute_modify-runs,
}
use profile_service_cpp.Repository.Listing.{items, select-items}
use profile_service_cpp.Repository.FavoriteRepository.{
  list_query, add_query, remove_query, list, add, remove,
}

abbrev pub has : String → List String → Bool
has j [] = false
has j (k ∷ ks) = k == j || has j ks

-- The table, as each user's chats in the order in which the select gives them, and what the three
-- statements do to it: an insert adds a chat that is not there, where that fits (the user has a
-- profile, and the texts are as short as their columns), and a delete takes it away. The clock is read
-- without an exception.
pub record FavoriteTable (P : Platform) : Type 0 where
  pub server : SqlServer P
  pub stored : P.World → String → List String
  pub row : String → String → P.Row
  pub fits : P.World → String → String → Bool
  pub selected : String → P.World → P.World
  pub added : String → String → P.World → P.World
  pub removed : String → String → P.World → P.World
  pub time : P.World → P.TimePoint
  pub ticked : P.World → P.World
  pub clock_law : (w : P.World) → P.now w ≡ (ok (time w), ticked w)
  pub columns :
      (u k : String)
      → (P.column (row u k) "user_id" ≡ ok (server.text u))
        × (P.column (row u k) "chat_id" ≡ ok (server.text k))
  pub begun_stored : (w : P.World) (u : String) → stored (server.begun w) u ≡ stored w u
  pub begun_fits : (w : P.World) (u k : String) → fits (server.begun w) u k ≡ fits w u k
  pub committed_stored : (w : P.World) (u : String) → stored (server.committed w) u ≡ stored w u
  pub select_law :
      (w : P.World) (u : String)
      → P.is_open w ≡ true
      → P.exec_params list_query (u ∷ []) w ≡ (ok (map (row u) (stored w u)), selected u w)
  pub selected_open :
      (w : P.World) (u : String) → P.is_open w ≡ true → P.is_open (selected u w) ≡ true
  pub add_law :
      (w : P.World) (u k : String)
      → P.is_open w ≡ true
      → fits w u k ≡ true
      → P.exec_params add_query (u ∷ k ∷ []) w ≡ (ok [], added u k w)
  pub added_open :
      (w : P.World) (u k : String) → P.is_open w ≡ true → P.is_open (added u k w) ≡ true
  pub added_stored :
      (w : P.World) (u k v j : String)
      → has j (stored (added u k w) v) ≡ (u == v && k == j || has j (stored w v))
  pub remove_law :
      (w : P.World) (u k : String)
      → P.is_open w ≡ true
      → P.exec_params remove_query (u ∷ k ∷ []) w ≡ (ok [], removed u k w)
  pub removed_open :
      (w : P.World) (u k : String) → P.is_open w ≡ true → P.is_open (removed u k w) ≡ true
  pub removed_stored :
      (w : P.World) (u k v j : String)
      → has j (stored (removed u k w) v) ≡ (not (u == v && k == j) && has j (stored w v))

module _ (P : Platform) (table : FavoriteTable P) where
  open table use {server, stored}

  -- the favorite that a chat stands for, read from the world on
  abbrev favorite_of : String → String → P.World → Favorite P
  favorite_of u k w = record { user_id = u; chat_id = k; created_at = table.time w }

  -- the chats of a list of favorites
  abbrev pub chats : List (Favorite P) → List String
  chats [] = []
  chats (f ∷ fs) = f.chat_id ∷ chats fs

  chats-items :
      (u : String) (ks : List String) (w : P.World)
      → chats (items (favorite_of u) table.ticked ks w) ≡ ks
  chats-items u [] w = refl
  chats-items u (k ∷ ks) w = ap (λ ls. k ∷ ls) (chats-items u ks (table.ticked w))

  map_row :
      (u k : String) (w : P.World)
      → map_favorite P (some (table.row u k)) w ≡ (ok (favorite_of u k w), table.ticked w)
  unfolding map_favorite
  map_row u k w =
      let (c1, c2) = table.columns u k in
      ground (
        arith,
        get_string_value-text P server (table.row u k) "user_id" u c1,
        get_string_value-text P server (table.row u k) "chat_id" k c2,
        table.clock_law w,
      )

  -- `List` after a statement that succeeds
  list_after :
      (m : Action P.World (Unit {0})) (v : String) (w w' : P.World)
      → m w ≡ (ok tt, w')
      → P.is_open w' ≡ true
      → (fs : List (Favorite P)) × (((m >> list P (open_executor P server) v) w).0 ≡ ok fs)
        × (chats fs ≡ stored w' v)
  unfolding list convert_value
  list_after m v w w' done opened =
      let begun = server.begun_open w' opened in
      let w2 = table.selected v (server.begun w') in
      (
        items (favorite_of v) table.ticked (stored (server.begun w') v) (server.committed w2),
        ap (λ t. t.0) (bind-ok m (λ _. list P (open_executor P server) v) w done)
            ∙ select-items P server (table.row v) (map_favorite P) (favorite_of v) table.ticked
                (map_row v) list_query (string_value v) [] (stored (server.begun w') v) w' w2 opened
                (table.select_law (server.begun w') v begun)
                (table.selected_open (server.begun w') v begun),
        chats-items v (stored (server.begun w') v) (server.committed w2) ∙ table.begun_stored w' v,
      )

  add_lem :
      (u k : String) (w : P.World)
      → P.is_open w ≡ true
      → table.fits w u k ≡ true
      → add P (open_executor P server) u k w
        ≡ (ok tt, server.committed (table.added u k (server.begun w)))
  unfolding add convert_value
  add_lem u k w h fitting =
      let begun = server.begun_open w h in
      execute_modify-runs P server add_query _ _ [] w (table.added u k (server.begun w)) h
        (table.add_law (server.begun w) u k begun (table.begun_fits w u k ∙ fitting))
        (table.added_open (server.begun w) u k begun)

  remove_lem :
      (u k : String) (w : P.World)
      → P.is_open w ≡ true
      → remove P (open_executor P server) u k w
        ≡ (ok tt, server.committed (table.removed u k (server.begun w)))
  unfolding remove convert_value
  remove_lem u k w h =
      let begun = server.begun_open w h in
      execute_modify-runs P server remove_query _ _ [] w (table.removed u k (server.begun w)) h
        (table.remove_law (server.begun w) u k begun)
        (table.removed_open (server.begun w) u k begun)

  -- Over an open connection to such a table, `Add` of what fits it and then `List` succeed, and the list has
  -- exactly the user's chats that were stored and, for the user of `Add`, its chat.
  pub add-list :
      (u k v j : String) (w : P.World)
      → P.is_open w ≡ true
      → table.fits w u k ≡ true
      → (fs : List (Favorite P)) × (((add P (open_executor P server) u k
              >> list P (open_executor P server) v)
            w).0
          ≡ ok fs)
        × (has j (chats fs) ≡ (u == v && k == j || has j (stored w v)))
  add-list u k v j w h fitting =
      let begun = server.begun_open w h in
      let (fs, listed, same) =
        list_after (add P (open_executor P server) u k) v w _ (add_lem u k w h fitting)
          (server.committed_open _ (table.added_open (server.begun w) u k begun)) in
      (
        fs,
        listed,
        ap (has j) same
            ∙ ap (has j) (table.committed_stored (table.added u k (server.begun w)) v)
            ∙ table.added_stored (server.begun w) u k v j
            ∙ ap (λ ks. u == v && k == j || has j ks) (table.begun_stored w v),
      )

  -- Over an open connection to such a table, `Remove` and then `List` succeed, and the list has exactly
  -- the user's chats that were stored but, for the user of `Remove`, its chat.
  pub remove-list :
      (u k v j : String) (w : P.World)
      → P.is_open w ≡ true
      → (fs : List (Favorite P)) × (((remove P (open_executor P server) u k
              >> list P (open_executor P server) v)
            w).0
          ≡ ok fs)
        × (has j (chats fs) ≡ (not (u == v && k == j) && has j (stored w v)))
  remove-list u k v j w h =
      let begun = server.begun_open w h in
      let (fs, listed, same) =
        list_after (remove P (open_executor P server) u k) v w _ (remove_lem u k w h)
          (server.committed_open _ (table.removed_open (server.begun w) u k begun)) in
      (
        fs,
        listed,
        ap (has j) same
            ∙ ap (has j) (table.committed_stored (table.removed u k (server.begun w)) v)
            ∙ table.removed_stored (server.begun w) u k v j
            ∙ ap (λ ks. not (u == v && k == j) && has j ks) (table.begun_stored w v),
      )
