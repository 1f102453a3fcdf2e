-- ===== src/Bench/Tables.antt =====
-- Platforms with a database table: the world is the table, and its rows have named columns.
use profile_service_cpp.Prelude.{
  String, ◌==◌, Bool, true, false, Option, none, some, List, [], ◌∷◌, ◌≡◌, ap, refl, ◌&&◌,
  if◌then◌else◌,
}
use profile_service_cpp.Platform.{Platform}
use profile_service_cpp.Effect.{Result, ok, throw}
use profile_service_cpp.Models.{PrivacySettings}
use profile_service_cpp.Bench.{Json, quoted, field, bench}
use profile_service_cpp.Repository.Sql.{SqlServer, optional_text}
use profile_service_cpp.Repository.PrivacyRepository
use profile_service_cpp.Repository.NotificationRepository
use profile_service_cpp.Repository.PrivacyRepository.Laws.{PrivacyTable}
use profile_service_cpp.Repository.NotificationRepository.Table.{
  StoredRow, NotificationTable, is_chat, truth,
}

pub data Cell : Type 0 where
  text : String → Cell
  long_text : String → Cell
  flag : Bool → Cell
  null : Cell

abbrev holds_nothing : Cell → Bool
holds_nothing null = true
holds_nothing _ = false

abbrev type_of : Cell → Result String
type_of (text s) = ok "varchar"
type_of (long_text s) = ok "text"
type_of (flag b) = ok "bool"
type_of null = ok "unknown"

abbrev text_of : Cell → Result String
text_of (text s) = ok s
text_of (long_text s) = ok s
text_of _ = throw "not a text"

abbrev flag_of : Cell → Result Bool
flag_of (flag b) = ok b
flag_of _ = throw "not a truth value"

abbrev column : (String → Option Cell) → String → Result Cell
column row name = elim (row name) [ none ↦ throw "no such column" | some cell ↦ ok cell ]

abbrev pub posted : String → Json
posted s = field (field Json.null "user_id" (quoted s)) "bio" (quoted s)

-- a server over a table, with what it does to a statement
abbrev pub server_over :
    (Table : Type 0)
    → (String → List String → Table → Result (List (String → Option Cell)) × Table)
    → Platform
server_over Table statement = record bench {
  -- a text is read for a user and a bio
  parse = λ s. if s == "" then throw "parse error" else ok (posted s);
  World = Table;
  now = λ w. (ok 0, w);
  Row = String → Option Cell;
  Field = Cell;
  column = column;
  column_at = λ row index. throw "no such column";
  row_size = λ row. 0;
  field_is_null = holds_nothing;
  type_name = type_of;
  as_bool = flag_of;
  as_int64 = λ f. throw "not a number";
  as_double = λ f. throw "not a number";
  as_string = text_of;
  as_blob = λ f. throw "not a blob";
  connect = λ s w. (ok tt, w);
  is_open = λ w. true;
  close = λ w. (ok tt, w);
  begin_work = λ w. (ok tt, w);
  exec = λ query w. (ok [], w);
  exec_params = statement;
  commit_work = λ w. (ok tt, w);
  abort_work = λ w. (ok tt, w);
}

module _ (Table : Type 0)
    (statement : String → List String → Table → Result (List (String → Option Cell)) × Table) where
  abbrev pub sql_server : SqlServer (server_over Table statement)
  sql_server = record {
    begun = λ w. w;
    committed = λ w. w;
    begin_law = λ w h. refl;
    commit_law = λ w h. refl;
    begun_open = λ w h. h;
    committed_open = λ w h. h;
    text = text;
    long_text = long_text;
    flag = flag;
    null = null;
    text_law = λ s. (refl, refl, refl);
    long_text_law = λ s. (refl, refl, refl);
    flag_law = λ b. (refl, refl, refl);
    null_law = refl;
  }

abbrev pub PrivacyWorld : Type 0
PrivacyWorld = String → Option PrivacySettings

abbrev privacy_row : PrivacySettings → String → Option Cell
privacy_row s name =
    if name == "user_id"
    then some (text s.user_id)
    else if name == "profile_visibility"
    then some (text s.profile_visibility)
    else if name == "last_seen_visibility"
    then some (text s.last_seen_visibility)
    else if name == "avatar_visibility"
    then some (text s.avatar_visibility)
    else none

abbrev privacy_set : PrivacySettings → PrivacyWorld → PrivacyWorld
privacy_set s w u = if s.user_id == u then some s else w u

abbrev pub privacy_statement :
    String → List String → PrivacyWorld → Result (List (String → Option Cell)) × PrivacyWorld
privacy_statement query (u ∷ []) w =
    if query == PrivacyRepository.get_query
    then (ok (elim (w u) [ none ↦ [] | some s ↦ privacy_row s ∷ [] ]), w)
    else (throw "no such statement", w)
privacy_statement query (u ∷ p ∷ l ∷ a ∷ []) w =
    if query == PrivacyRepository.update_query
    then (
      ok [],
      privacy_set
          (record {
            user_id = u;
            profile_visibility = p;
            last_seen_visibility = l;
            avatar_visibility = a;
          })
          w,
    )
    else (throw "no such statement", w)
privacy_statement query _ w = (throw "no such statement", w)

abbrev pub privacy_bench : Platform
privacy_bench = server_over PrivacyWorld privacy_statement

abbrev pub privacy_table : PrivacyTable privacy_bench
privacy_table = record {
  server = sql_server PrivacyWorld privacy_statement;
  stored = λ w. w;
  row = privacy_row;
  fits = λ w s. true;
  begun_fits = λ w s. refl;
  selected = λ u w. w;
  written = privacy_set;
  columns = λ s. (refl, refl, refl, refl);
  begun_stored = λ w u. refl;
  committed_stored = λ w u. refl;
  select_law = λ w u h. refl;
  selected_open = λ w u h. h;
  selected_stored = λ w u v. refl;
  write_law = λ w s h fitting. refl;
  written_open = λ w s h. h;
  written_stored = λ w s u. refl;
}

abbrev NotificationWorld : Type 0
NotificationWorld = String → Option String → Option StoredRow

abbrev pub optional_cell : Option String → Cell
optional_cell none = null
optional_cell (some s) = text s

abbrev notification_row : String → Option String → StoredRow → String → Option Cell
notification_row u k r name =
    if name == "id"
    then some (text r.id)
    else if name == "user_id"
    then some (text u)
    else if name == "chat_id"
    then some (optional_cell k)
    else if name == "muted"
    then some (flag r.muted)
    else none

-- a new row has the identifier "new"
abbrev row_id : NotificationWorld → String → String → String
row_id w u k = elim (w u (some k)) [ none ↦ "new" | some r ↦ r.id ]

abbrev notification_set : String → String → Bool → NotificationWorld → NotificationWorld
notification_set u k m w v j =
    if u == v && is_chat j k then some (record { id = row_id w u k; muted = m }) else w v j

abbrev notification_statement :
    String
    → List String
    → NotificationWorld
    → Result (List (String → Option Cell)) × NotificationWorld
notification_statement query (u ∷ []) w =
    if query == NotificationRepository.get_global_query
    then (ok (elim (w u none) [ none ↦ [] | some r ↦ notification_row u none r ∷ [] ]), w)
    else (throw "no such statement", w)
notification_statement query (u ∷ k ∷ []) w =
    if query == NotificationRepository.get_chat_query
    then (ok (elim (w u (some k)) [ none ↦ [] | some r ↦ notification_row u (some k) r ∷ [] ]), w)
    else (throw "no such statement", w)
notification_statement query (u ∷ k ∷ m ∷ []) w =
    if query == NotificationRepository.upsert_query
    then (ok [], notification_set u k (m == "true") w)
    else (throw "no such statement", w)
notification_statement query (u ∷ k ∷ m ∷ until ∷ []) w =
    if query == NotificationRepository.upsert_until_query
    then (ok [], notification_set u k (m == "true") w)
    else (throw "no such statement", w)
notification_statement query _ w = (throw "no such statement", w)

abbrev pub notification_bench : Platform
notification_bench = server_over NotificationWorld notification_statement

abbrev truth_lem : (m : Bool) → (truth m == "true") ≡ m
truth_lem true = refl
truth_lem false = refl

abbrev notification_columns :
    (u : String) (k : Option String) (r : StoredRow)
    → (column (notification_row u k r) "id" ≡ ok (text r.id))
      × (column (notification_row u k r) "user_id" ≡ ok (text u))
      × (column (notification_row u k r) "chat_id"
          ≡ ok (optional_text (sql_server NotificationWorld notification_statement) k))
      × (column (notification_row u k r) "muted" ≡ ok (flag r.muted))
notification_columns u none r = (refl, refl, refl, refl)
notification_columns u (some k) r = (refl, refl, refl, refl)

abbrev pub notification_table : NotificationTable notification_bench
notification_table = record {
  server = sql_server NotificationWorld notification_statement;
  stored = λ w. w;
  row = notification_row;
  fits = λ w u k. true;
  begun_fits = λ w u k. refl;
  selected = λ u k w. w;
  written = λ u k m until w. notification_set u k m w;
  row_id = row_id;
  columns = notification_columns;
  begun_stored = λ w u k. refl;
  committed_stored = λ w u k. refl;
  select_global_law = λ w u h. refl;
  select_chat_law = λ w u k h. refl;
  selected_open = λ w u k h. h;
  upsert_law = λ w u k m h fitting. ap (λ b. (ok [], notification_set u k b w)) (truth_lem m);
  upsert_until_law =
      λ w u k m until h fitting. ap (λ b. (ok [], notification_set u k b w)) (truth_lem m);
  written_open = λ w u k m until h. h;
  written_stored = λ w u k m until v j. refl;
}
