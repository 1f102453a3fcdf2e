-- ===== src/Repository/ContactsRepository/Laws.antt =====
-- The repository of contacts over a server with the table `contacts`.
use profile_service_cpp.Prelude.{
  Bool, String, ◌==◌, true, Option, none, some, value_or, ◌&&◌, List, [], ◌∷◌, map, ◌≡◌, ◌∙◌, refl,
  ap, arith, if◌then◌else◌,
}
use profile_service_cpp.Prelude.Dict.{Dict, find}
use profile_service_cpp.Prelude.Text.{string_eq}
use profile_service_cpp.Platform.{Platform}
use profile_service_cpp.Effect.{ok, Action, ◌>>◌}
use profile_service_cpp.Effect.Laws.{bind-ok}
use profile_service_cpp.Models.{Contact}
use profile_service_cpp.Mappers.{map_contact}
use profile_service_cpp.Database.Value.{string_value, convert_value}
use profile_service_cpp.Repository.Sql.{
  SqlServer, optional_text, get_string_value-text, get_string_value-optional, open_executor,
  execute_modify-runs,
}
use profile_service_cpp.Repository.Listing.{items, select-items}
use profile_service_cpp.Repository.ContactsRepository.{
  list_query, add_query, remove_query, list, add, remove,
}

-- The table, as each owner's contacts with their aliases, in the order in which the select gives them, and
-- what the three statements do to it: an insert sets the alias of a contact, which is new or not, where that
-- fits (both users have profiles, and the texts are as short as their columns), and a delete takes the
-- contact away. The clock is read without an exception.
pub record ContactTable (P : Platform) : Type 0 where
  pub server : SqlServer P
  pub stored : P.World → String → Dict String (Option String)
  pub row : String → String × Option String → P.Row
  pub fits : P.World → String → String → String → Bool
  pub selected : String → P.World → P.World
  pub added : String → String → String → P.World → P.World
  pub removed : String → String → P.World → P.World
  pub time : P.World → P.TimePoint
  pub ticked : P.World → P.World
  pub clock_law : (w : P.World) → P.now w ≡ (ok (time w), ticked w)
  pub columns :
      (u k : String) (a : Option String)
      → (P.column (row u (k, a)) "owner_id" ≡ ok (server.text u))
        × (P.column (row u (k, a)) "contact_id" ≡ ok (server.text k))
        × (P.column (row u (k, a)) "alias" ≡ ok (optional_text server a))
  pub begun_stored : (w : P.World) (u : String) → stored (server.begun w) u ≡ stored w u
  pub begun_fits : (w : P.World) (u k a : String) → fits (server.begun w) u k a ≡ fits w u k a
  pub committed_stored : (w : P.World) (u : String) → stored (server.committed w) u ≡ stored w u
  pub select_law :
      (w : P.World) (u : String)
      → P.is_open w ≡ true
      → P.exec_params list_query (u ∷ []) w ≡ (ok (map (row u) (stored w u)), selected u w)
  pub selected_open :
      (w : P.World) (u : String) → P.is_open w ≡ true → P.is_open (selected u w) ≡ true
  pub add_law :
      (w : P.World) (u k a : String)
      → P.is_open w ≡ true
      → fits w u k a ≡ true
      → P.exec_params add_query (u ∷ k ∷ a ∷ []) w ≡ (ok [], added u k a w)
  pub added_open :
      (w : P.World) (u k a : String) → P.is_open w ≡ true → P.is_open (added u k a w) ≡ true
  pub added_stored :
      (w : P.World) (u k a v j : String)
      → find j (stored (added u k a w) v)
        ≡ (if u == v && k == j then some (some a) else find j (stored w v))
  pub remove_law :
      (w : P.World) (u k : String)
      → P.is_open w ≡ true
      → P.exec_params remove_query (u ∷ k ∷ []) w ≡ (ok [], removed u k w)
  pub removed_open :
      (w : P.World) (u k : String) → P.is_open w ≡ true → P.is_open (removed u k w) ≡ true
  pub removed_stored :
      (w : P.World) (u k v j : String)
      → find j (stored (removed u k w) v) ≡ (if u == v && k == j then none else find j (stored w v))

module _ (P : Platform) (table : ContactTable P) where
  open table use {server, stored}

  -- the contact that an entry stands for, read from the world on
  abbrev contact_of : String → String × Option String → P.World → Contact P
  contact_of u e w = record {
    owner_id = u;
    contact_id = e.0;
    alias = e.1;
    created_at = table.time w;
  }

  -- the contacts of a list, with their aliases
  abbrev pub entries : List (Contact P) → Dict String (Option String)
  entries [] = []
  entries (c ∷ cs) = (c.contact_id, c.alias) ∷ entries cs

  entries-items :
      (u : String) (es : Dict String (Option String)) (w : P.World)
      → entries (items (contact_of u) table.ticked es w) ≡ es
  entries-items u [] w = refl
  entries-items u (e ∷ es) w = ap (λ fs. e ∷ fs) (entries-items u es (table.ticked w))

  map_row :
      (u : String) (e : String × Option String) (w : P.World)
      → map_contact P (some (table.row u e)) w ≡ (ok (contact_of u e w), table.ticked w)
  unfolding map_contact
  map_row u (k, a) w =
      let (c1, c2, c3) = table.columns u k a in
      ground (
        arith,
        get_string_value-text P server (table.row u (k, a)) "owner_id" u c1,
        get_string_value-text P server (table.row u (k, a)) "contact_id" k c2,
        get_string_value-optional P server (table.row u (k, a)) "alias" a c3,
        table.clock_law w,
      )

  -- `List` after a statement that succeeds
  list_after :
      (m : Action P.World (Unit {0})) (v : String) (w w' : P.World)
      → m w ≡ (ok tt, w')
      → P.is_open w' ≡ true
      → (cs : List (Contact P)) × (((m >> list P (open_executor P server) v) w).0 ≡ ok cs)
        × (entries cs ≡ stored w' v)
  unfolding list convert_value
  list_after m v w w' done opened =
      let begun = server.begun_open w' opened in
      let w2 = table.selected v (server.begun w') in
      (
        items (contact_of v) table.ticked (stored (server.begun w') v) (server.committed w2),
        ap (λ t. t.0) (bind-ok m (λ _. list P (open_executor P server) v) w done)
            ∙ select-items P server (table.row v) (map_contact P) (contact_of v) table.ticked
                (map_row v) list_query (string_value v) [] (stored (server.begun w') v) w' w2 opened
                (table.select_law (server.begun w') v begun)
                (table.selected_open (server.begun w') v begun),
        entries-items v (stored (server.begun w') v) (server.committed w2)
            ∙ table.begun_stored w' v,
      )

  add_lem :
      (c : Contact P) (w : P.World)
      → P.is_open w ≡ true
      → table.fits w c.owner_id c.contact_id (value_or c.alias "") ≡ true
      → add P (open_executor P server) c w ≡ (
        ok tt,
        server.committed
            (table.added c.owner_id c.contact_id (value_or c.alias "") (server.begun w)),
      )
  unfolding add convert_value
  add_lem c w h fitting =
      let begun = server.begun_open w h in
      execute_modify-runs P server add_query _ _ [] w _ h
        (table.add_law (server.begun w) c.owner_id c.contact_id (value_or c.alias "") begun
          (table.begun_fits w c.owner_id c.contact_id _ ∙ fitting))
        (table.added_open (server.begun w) c.owner_id c.contact_id (value_or c.alias "") begun)

  remove_lem :
      (u k : String) (w : P.World)
      → P.is_open w ≡ true
      → remove P (open_executor P server) u k w
        ≡ (ok tt, server.committed (table.removed u k (server.begun w)))
  unfolding remove convert_value
  remove_lem u k w h =
      let begun = server.begun_open w h in
      execute_modify-runs P server remove_query _ _ [] w _ h
        (table.remove_law (server.begun w) u k begun)
        (table.removed_open (server.begun w) u k begun)

  -- Over an open connection to such a table, `Add` of a contact that fits it and then `List` succeed, and the
  -- list has exactly the owner's contacts that were stored and, for the owner in `Add`, its contact with its
  -- alias in place of an earlier one, the empty text where it has none.
  pub add-list_alias :
      (c : Contact P) (v j : String) (w : P.World)
      → P.is_open w ≡ true
      → table.fits w c.owner_id c.contact_id (value_or c.alias "") ≡ true
      → (cs : List (Contact P)) × (((add P (open_executor P server) c
              >> list P (open_executor P server) v)
            w).0
          ≡ ok cs)
        × (find j (entries cs) ≡ (
            if c.owner_id == v && c.contact_id == j
            then some (some (value_or c.alias ""))
            else find j (stored w v)))
  add-list_alias c v j w h fitting =
      let begun = server.begun_open w h in
      let a = value_or c.alias "" in
      let (cs, listed, same) =
        list_after (add P (open_executor P server) c) v w _ (add_lem c w h fitting) (
          server.committed_open _
            (table.added_open (server.begun w) c.owner_id c.contact_id a begun)) in
      (
        cs,
        listed,
        ap (find j) same
            ∙ ap (find j)
                (table.committed_stored (table.added c.owner_id c.contact_id a (server.begun w)) v)
            ∙ table.added_stored (server.begun w) c.owner_id c.contact_id a v j
            ∙ ap (λ es. if c.owner_id == v && c.contact_id == j then some (some a) else find j es)
                (table.begun_stored w v),
      )

  -- Over an open connection to such a table, `Remove` and then `List` succeed, and the list has exactly the
  -- owner's contacts that were stored but, for the owner in `Remove`, its contact.
  pub remove-list_contact :
      (u k v j : String) (w : P.World)
      → P.is_open w ≡ true
      → (cs : List (Contact P)) × (((remove P (open_executor P server) u k
              >> list P (open_executor P server) v)
            w).0
          ≡ ok cs)
        × (find j (entries cs) ≡ (if u == v && k == j then none else find j (stored w v)))
  remove-list_contact u k v j w h =
      let begun = server.begun_open w h in
      let (cs, listed, same) =
        list_after (remove P (open_executor P server) u k) v w _ (remove_lem u k w h)
          (server.committed_open _ (table.removed_open (server.begun w) u k begun)) in
      (
        cs,
        listed,
        ap (find j) same
            ∙ ap (find j) (table.committed_stored (table.removed u k (server.begun w)) v)
            ∙ table.removed_stored (server.begun w) u k v j
            ∙ ap (λ es. if u == v && k == j then none else find j es) (table.begun_stored w v),
      )
