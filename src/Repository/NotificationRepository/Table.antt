-- ===== src/Repository/NotificationRepository/Table.antt =====
-- A server with the table `notification_settings`.
use profile_service_cpp.Prelude.{
  String, ◌==◌, Bool, true, false, ◌&&◌, Option, none, some, [], ◌∷◌, ◌≡◌, if◌then◌else◌,
}
use profile_service_cpp.Platform.{Platform}
use profile_service_cpp.Effect.{ok}
use profile_service_cpp.Repository.Sql.{SqlServer, optional_text}
use profile_service_cpp.Repository.NotificationRepository.{
  get_global_query, get_chat_query, upsert_query, upsert_until_query,
}

-- the columns of a row that the service reads, beside its key
pub record StoredRow : Type 0 where
  pub id : String
  pub muted : Bool

-- whether a row's `chat_id`, which may be null, is a text: null is equal to none
abbrev pub is_chat : Option String → String → Bool
is_chat none chat_id = false
is_chat (some k) chat_id = k == chat_id

-- the text of a truth value as a parameter
abbrev pub truth : Bool → String
truth b = if b then "true" else "false"

-- The table, by user and chat, and what the four statements do to it: a select gives the row with the
-- user and the chat, or with the user and a null chat, and an insert with its `ON CONFLICT` sets the row
-- with the user and the given text as chat, where that fits: the user has a profile, and the texts are as
-- short as their columns.
pub record NotificationTable (P : Platform) : Type 0 where
  pub server : SqlServer P
  pub stored : P.World → String → Option String → Option StoredRow
  pub row : String → Option String → StoredRow → P.Row
  pub fits : P.World → String → String → Bool
  pub selected : String → Option String → P.World → P.World
  -- with the user, the chat, the truth value and the text of `muted_until`
  pub written : String → String → Bool → Option String → P.World → P.World
  -- the identifier of the row that is set: its own, or a new one
  pub row_id : P.World → String → String → String
  pub columns :
      (u : String) (k : Option String) (r : StoredRow)
      → (P.column (row u k r) "id" ≡ ok (server.text r.id))
        × (P.column (row u k r) "user_id" ≡ ok (server.text u))
        × (P.column (row u k r) "chat_id" ≡ ok (optional_text server k))
        × (P.column (row u k r) "muted" ≡ ok (server.flag r.muted))
  pub begun_stored :
      (w : P.World) (u : String) (k : Option String) → stored (server.begun w) u k ≡ stored w u k
  pub begun_fits : (w : P.World) (u k : String) → fits (server.begun w) u k ≡ fits w u k
  pub committed_stored :
      (w : P.World) (u : String) (k : Option String)
      → stored (server.committed w) u k ≡ stored w u k
  pub select_global_law :
      (w : P.World) (u : String)
      → P.is_open w ≡ true
      → P.exec_params get_global_query (u ∷ []) w ≡ (
        ok (elim (stored w u none) [ none ↦ [] | some r ↦ row u none r ∷ [] ]),
        selected u none w,
      )
  pub select_chat_law :
      (w : P.World) (u k : String)
      → P.is_open w ≡ true
      → P.exec_params get_chat_query (u ∷ k ∷ []) w ≡ (
        ok (elim (stored w u (some k)) [ none ↦ [] | some r ↦ row u (some k) r ∷ [] ]),
        selected u (some k) w,
      )
  pub selected_open :
      (w : P.World) (u : String) (k : Option String)
      → P.is_open w ≡ true
      → P.is_open (selected u k w) ≡ true
  pub upsert_law :
      (w : P.World) (u k : String) (m : Bool)
      → P.is_open w ≡ true
      → fits w u k ≡ true
      → P.exec_params upsert_query (u ∷ k ∷ truth m ∷ []) w ≡ (ok [], written u k m none w)
  pub upsert_until_law :
      (w : P.World) (u k : String) (m : Bool) (until : String)
      → P.is_open w ≡ true
      → fits w u k ≡ true
      → P.exec_params upsert_until_query (u ∷ k ∷ truth m ∷ until ∷ []) w
        ≡ (ok [], written u k m (some until) w)
  pub written_open :
      (w : P.World) (u k : String) (m : Bool) (until : Option String)
      → P.is_open w ≡ true
      → P.is_open (written u k m until w) ≡ true
  pub written_stored :
      (w : P.World) (u k : String) (m : Bool) (until : Option String) (v : String)
      (j : Option String)
      → stored (written u k m until w) v j ≡ (
          if u == v && is_chat j k
          then some (record { id = row_id w u k; muted = m })
          else stored w v j)
