-- ===== src/Bench/Contacts.antt =====
-- A platform with a table of contacts.
use profile_service_cpp.Prelude.{
  Bool, String, ◌==◌, eq_iff, true, false, ◌&&◌, Option, none, some, List, [], ◌∷◌, map, ◌≡◌, ap,
  refl, arith, if◌then◌else◌,
}
use profile_service_cpp.Prelude.Dict.{Dict, find, insert, find-insert}
use profile_service_cpp.Prelude.Text.{string_eq}
use profile_service_cpp.Platform.{Platform}
use profile_service_cpp.Effect.{Result, ok, throw}
use profile_service_cpp.Bench.Tables.{Cell, text, optional_cell, server_over, sql_server}
use profile_service_cpp.Repository.Sql.{optional_text}
use profile_service_cpp.Repository.ContactsRepository.{list_query, add_query, remove_query}
use profile_service_cpp.Repository.ContactsRepository.Laws.{ContactTable}

abbrev pub ContactWorld : Type 0
ContactWorld = String → Dict String (Option String)

abbrev contact_row : String → String × Option String → String → Option Cell
contact_row u (k, a) name =
    if name == "owner_id"
    then some (text u)
    else if name == "contact_id"
    then some (text k)
    else if name == "alias"
    then some (optional_cell a)
    else none

abbrev without : String → Dict String (Option String) → Dict String (Option String)
without k [] = []
without k ((j, a) ∷ es) = let rest = without k es in if j == k then rest else (j, a) ∷ rest

abbrev contact_add : String → String → String → ContactWorld → ContactWorld
contact_add u k a w v = if u == v then insert k (some a) (w v) else w v

abbrev contact_remove : String → String → ContactWorld → ContactWorld
contact_remove u k w v = if u == v then without k (w v) else w v

abbrev contact_statement :
    String → List String → ContactWorld → Result (List (String → Option Cell)) × ContactWorld
contact_statement query (u ∷ []) w =
    if query == list_query
    then (ok (map (contact_row u) (w u)), w)
    else (throw "no such statement", w)
contact_statement query (u ∷ k ∷ []) w =
    if query == remove_query then (ok [], contact_remove u k w) else (throw "no such statement", w)
contact_statement query (u ∷ k ∷ a ∷ []) w =
    if query == add_query then (ok [], contact_add u k a w) else (throw "no such statement", w)
contact_statement query _ w = (throw "no such statement", w)

abbrev pub contact_bench : Platform
contact_bench = server_over ContactWorld contact_statement

pub optional_cell-eq :
    (o : Option String)
    → optional_cell o ≡ optional_text (sql_server ContactWorld contact_statement) o
optional_cell-eq none = refl
optional_cell-eq (some s) = refl

pub find-contact_add :
    (b : Bool) (k a j : String) (es : Dict String (Option String))
    → find j (if b then insert k (some a) es else es)
      ≡ (if b && k == j then some (some a) else find j es)
find-contact_add true k a j es = find-insert k j (some a) es
find-contact_add false k a j es = refl

find-without :
    (k j : String) (es : Dict String (Option String))
    → find j (without k es) ≡ (if k == j then none else find j es)
unfolding find
find-without k j [] = ground arith
find-without k j ((i, a) ∷ es) =
    let rest = find-without k j es in ground (arith, eq_iff i k, eq_iff i j, eq_iff k j)

pub find-contact_remove :
    (b : Bool) (k j : String) (es : Dict String (Option String))
    → find j (if b then without k es else es) ≡ (if b && k == j then none else find j es)
find-contact_remove true k j es = find-without k j es
find-contact_remove false k j es = refl

abbrev pub contact_table : ContactTable contact_bench
contact_table = record {
  server = sql_server ContactWorld contact_statement;
  stored = λ w. w;
  row = contact_row;
  fits = λ w u k a. true;
  selected = λ u w. w;
  added = contact_add;
  removed = contact_remove;
  time = λ w. 0;
  ticked = λ w. w;
  clock_law = λ w. refl;
  columns = λ u k a. (refl, refl, ap ok (optional_cell-eq a));
  begun_stored = λ w u. refl;
  begun_fits = λ w u k a. refl;
  committed_stored = λ w u. refl;
  select_law = λ w u h. refl;
  selected_open = λ w u h. h;
  add_law = λ w u k a h fitting. refl;
  added_open = λ w u k a h. h;
  added_stored = λ w u k a v j. find-contact_add (u == v) k a j (w v);
  remove_law = λ w u k h. refl;
  removed_open = λ w u k h. h;
  removed_stored = λ w u k v j. find-contact_remove (u == v) k j (w v);
}
