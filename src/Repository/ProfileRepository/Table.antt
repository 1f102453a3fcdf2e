-- ===== src/Repository/ProfileRepository/Table.antt =====
-- A server with the table `profiles`.
use profile_service_cpp.Prelude.{
  String, ◌==◌, Bool, true, false, Option, none, some, [], ◌∷◌, value_or, ◌≡◌, if◌then◌else◌,
}
use profile_service_cpp.Platform.{Platform}
use profile_service_cpp.Effect.{ok, throw}
use profile_service_cpp.Repository.Sql.{SqlServer, optional_long_text, optional_text}
use profile_service_cpp.Repository.ProfileRepository.{create_query, get_by_id_query, update_query}

-- the columns of a row that the service reads, beside its key
pub record StoredProfile : Type 0 where
  pub first_name : Option String
  pub last_name : Option String
  pub username : Option String
  pub bio : Option String
  pub avatar_url : Option String

abbrev pub blank : StoredProfile
blank = record {
  first_name = none;
  last_name = none;
  username = none;
  bio = none;
  avatar_url = none;
}

-- the columns that the update sets
abbrev pub set_texts : String → String → String → String → StoredProfile → StoredProfile
set_texts f l n b r = record r {
  first_name = some f;
  last_name = some l;
  username = some n;
  bio = some b;
}

-- The table, by the primary key `user_id`, and what three statements do to it. The insert gives the row
-- that is there, or a blank one; the update sets the texts of the user's row, where they fit: they are as
-- short as their columns, and no other row has the username, which is UNIQUE. Where another row has it, the
-- update throws. The clock is read without an exception and leaves the table alone.
pub record ProfileTable (P : Platform) : Type 0 where
  pub server : SqlServer P
  pub stored : P.World → String → Option StoredProfile
  pub row : String → StoredProfile → P.Row
  pub fits_id : String → Bool
  pub fits : P.World → String → String → String → String → String → Bool
  pub time : P.World → P.TimePoint
  pub ticked : P.World → P.World
  pub selected : String → P.World → P.World
  pub created : String → P.World → P.World
  pub updated : String → String → String → String → String → P.World → P.World
  pub clock_law : (w : P.World) → P.now w ≡ (ok (time w), ticked w)
  pub ticked_open : (w : P.World) → P.is_open w ≡ true → P.is_open (ticked w) ≡ true
  pub ticked_stored : (w : P.World) (u : String) → stored (ticked w) u ≡ stored w u
  pub columns :
      (u : String) (r : StoredProfile)
      → (P.column (row u r) "user_id" ≡ ok (server.text u))
        × (P.column (row u r) "first_name" ≡ ok (optional_text server r.first_name))
        × (P.column (row u r) "last_name" ≡ ok (optional_text server r.last_name))
        × (P.column (row u r) "username" ≡ ok (optional_text server r.username))
        × (P.column (row u r) "bio" ≡ ok (optional_long_text server r.bio))
        × (P.column (row u r) "avatar_url" ≡ ok (optional_long_text server r.avatar_url))
  pub begun_stored : (w : P.World) (u : String) → stored (server.begun w) u ≡ stored w u
  pub begun_fits :
      (w : P.World) (u f l n b : String) → fits (server.begun w) u f l n b ≡ fits w u f l n b
  pub committed_stored : (w : P.World) (u : String) → stored (server.committed w) u ≡ stored w u
  pub ticked_fits :
      (w : P.World) (v f l n b : String) → fits (ticked w) v f l n b ≡ fits w v f l n b
  pub committed_fits :
      (w : P.World) (v f l n b : String) → fits (server.committed w) v f l n b ≡ fits w v f l n b
  pub select_law :
      (w : P.World) (u : String)
      → P.is_open w ≡ true
      → P.exec_params get_by_id_query (u ∷ []) w
        ≡ (ok (elim (stored w u) [ none ↦ [] | some r ↦ row u r ∷ [] ]), selected u w)
  pub selected_open :
      (w : P.World) (u : String) → P.is_open w ≡ true → P.is_open (selected u w) ≡ true
  pub selected_stored : (w : P.World) (u v : String) → stored (selected u w) v ≡ stored w v
  pub selected_fits :
      (w : P.World) (u v f l n b : String) → fits (selected u w) v f l n b ≡ fits w v f l n b
  pub create_law :
      (w : P.World) (u : String)
      → P.is_open w ≡ true
      → fits_id u ≡ true
      → P.exec_params create_query (u ∷ []) w
        ≡ (ok (row u (value_or (stored w u) blank) ∷ []), created u w)
  pub created_open :
      (w : P.World) (u : String) → P.is_open w ≡ true → P.is_open (created u w) ≡ true
  pub created_stored :
      (w : P.World) (u v : String)
      → stored (created u w) v ≡ (if u == v then some (value_or (stored w u) blank) else stored w v)
  pub update_law :
      (w : P.World) (u f l n b : String)
      → P.is_open w ≡ true
      → fits w u f l n b ≡ true
      → P.exec_params update_query (f ∷ l ∷ n ∷ b ∷ u ∷ []) w ≡ (ok [], updated u f l n b w)
  pub updated_open :
      (w : P.World) (u f l n b : String)
      → P.is_open w ≡ true
      → P.is_open (updated u f l n b w) ≡ true
  pub updated_stored :
      (w : P.World) (u f l n b v : String)
      → stored (updated u f l n b w) v ≡ (
          if u == v
          then elim (stored w v) [ none ↦ none | some r ↦ some (set_texts f l n b r) ]
          else stored w v)
  pub unique_law :
      (w : P.World) (u f l n b v : String) (r s : StoredProfile)
      → P.is_open w ≡ true
      → stored w u ≡ some r
      → stored w v ≡ some s
      → s.username ≡ some n
      → (u == v) ≡ false
      → (e : String) × ((P.exec_params update_query (f ∷ l ∷ n ∷ b ∷ u ∷ []) w).0 ≡ throw e)
