-- ===== src/Bench/Favorites.antt =====
-- A platform with a table of favorites.
use profile_service_cpp.Prelude.{
  Bool-cases, inl, inr, String, ◌==◌, eq_iff, Bool, true, false, not, ◌&&◌, ◌||◌, Option, none,
  some, List, [], ◌∷◌, map, ◌≡◌, ap, refl, arith, if◌then◌else◌,
}
use profile_service_cpp.Platform.{Platform}
use profile_service_cpp.Effect.{Result, ok, throw}
use profile_service_cpp.Bench.Tables.{Cell, text, server_over, sql_server}
use profile_service_cpp.Repository.FavoriteRepository.{list_query, add_query, remove_query}
use profile_service_cpp.Repository.FavoriteRepository.Laws.{FavoriteTable, has}

abbrev FavoriteWorld : Type 0
FavoriteWorld = String → List String

abbrev favorite_row : String → String → String → Option Cell
favorite_row u k name =
    if name == "user_id" then some (text u) else if name == "chat_id" then some (text k) else none

abbrev with_chat : Bool → String → List String → List String
with_chat here k ks = if here && not (has k ks) then k ∷ ks else ks

abbrev without : String → List String → List String
without k [] = []
without k (j ∷ js) = if j == k then without k js else j ∷ without k js

abbrev favorite_add : String → String → FavoriteWorld → FavoriteWorld
favorite_add u k w v = with_chat (u == v) k (w v)

abbrev favorite_remove : String → String → FavoriteWorld → FavoriteWorld
favorite_remove u k w v = if u == v then without k (w v) else w v

abbrev favorite_statement :
    String → List String → FavoriteWorld → Result (List (String → Option Cell)) × FavoriteWorld
favorite_statement query (u ∷ []) w =
    if query == list_query
    then (ok (map (favorite_row u) (w u)), w)
    else (throw "no such statement", w)
favorite_statement query (u ∷ k ∷ []) w =
    if query == add_query
    then (ok [], favorite_add u k w)
    else if query == remove_query
    then (ok [], favorite_remove u k w)
    else (throw "no such statement", w)
favorite_statement query _ w = (throw "no such statement", w)

abbrev pub favorite_bench : Platform
favorite_bench = server_over FavoriteWorld favorite_statement

pub has-with_chat :
    (b : Bool) (k j : String) (ks : List String)
    → has j (with_chat b k ks) ≡ (b && k == j || has j ks)
has-with_chat b k j ks = elim (Bool-cases (k == j)) [
  | inl h ↦ let same : has k ks ≡ has j ks = ap (λ i. has i ks) ((eq_iff k j).0 h) in ground arith
  | inr h ↦ ground arith
]

has-without : (k j : String) (ks : List String) → has j (without k ks) ≡ (not (k == j) && has j ks)
has-without k j [] = ground arith
has-without k j (i ∷ ks) =
    let rest = has-without k j ks in ground (arith, eq_iff i k, eq_iff i j, eq_iff k j)

pub has-favorite_remove :
    (b : Bool) (k j : String) (ks : List String)
    → has j (if b then without k ks else ks) ≡ (not (b && k == j) && has j ks)
has-favorite_remove true k j ks = has-without k j ks
has-favorite_remove false k j ks = refl

abbrev pub favorite_table : FavoriteTable favorite_bench
favorite_table = record {
  server = sql_server FavoriteWorld favorite_statement;
  stored = λ w. w;
  row = favorite_row;
  fits = λ w u k. true;
  selected = λ u w. w;
  added = favorite_add;
  removed = favorite_remove;
  time = λ w. 0;
  ticked = λ w. w;
  clock_law = λ w. refl;
  columns = λ u k. (refl, refl);
  begun_stored = λ w u. refl;
  begun_fits = λ w u k. refl;
  committed_stored = λ w u. refl;
  select_law = λ w u h. refl;
  selected_open = λ w u h. h;
  add_law = λ w u k h fitting. refl;
  added_open = λ w u k h. h;
  added_stored = λ w u k v j. has-with_chat (u == v) k j (w v);
  remove_law = λ w u k h. refl;
  removed_open = λ w u k h. h;
  removed_stored = λ w u k v j. has-favorite_remove (u == v) k j (w v);
}
