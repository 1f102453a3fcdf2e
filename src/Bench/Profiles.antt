-- ===== src/Bench/Profiles.antt =====
-- A platform with a table of profiles, in which a username belongs to one row.
use profile_service_cpp.Prelude.{
  String, ◌==◌, eq_iff, Bool, true, false, not, ◌&&◌, ◌||◌, Option, none, some, List, [], ◌∷◌,
  value_or, ◌≡◌, ap, refl, arith, if◌then◌else◌, Bool-cases, inl, inr,
}
use profile_service_cpp.Platform.{Platform}
use profile_service_cpp.Effect.{Result, ok, throw}
use profile_service_cpp.Bench.Tables.{
  Cell, text, long_text, null, optional_cell, server_over, sql_server,
}
use profile_service_cpp.Repository.Sql.{optional_text, optional_long_text}
use profile_service_cpp.Repository.ProfileRepository.{create_query, get_by_id_query, update_query}
use profile_service_cpp.Repository.ProfileRepository.Table.{
  StoredProfile, ProfileTable, blank, set_texts,
}

abbrev pub ProfileWorld : Type 0
ProfileWorld = List (String × StoredProfile)

abbrev stored_row : ProfileWorld → String → Option StoredProfile
stored_row [] u = none
stored_row ((k, r) ∷ w) u = if k == u then some r else stored_row w u

-- whether a row of another user has the username
abbrev taken : ProfileWorld → String → String → Bool
taken [] u n = false
taken ((k, r) ∷ w) u n =
    not (k == u) && elim r.username [ none ↦ false | some m ↦ m == n ] || taken w u n

abbrev long_cell : Option String → Cell
long_cell none = null
long_cell (some s) = long_text s

abbrev profile_row : String → StoredProfile → String → Option Cell
profile_row u r name =
    if name == "user_id"
    then some (text u)
    else if name == "first_name"
    then some (optional_cell r.first_name)
    else if name == "last_name"
    then some (optional_cell r.last_name)
    else if name == "username"
    then some (optional_cell r.username)
    else if name == "bio"
    then some (long_cell r.bio)
    else if name == "avatar_url"
    then some (long_cell r.avatar_url)
    else none

abbrev profile_create : String → ProfileWorld → ProfileWorld
profile_create u w = elim (stored_row w u) [ none ↦ (u, blank) ∷ w | some r ↦ w ]

abbrev profile_set : String → String → String → String → String → ProfileWorld → ProfileWorld
profile_set u f l n b [] = []
profile_set u f l n b ((k, r) ∷ w) =
    (k, if k == u then set_texts f l n b r else r) ∷ profile_set u f l n b w

abbrev profile_statement :
    String → List String → ProfileWorld → Result (List (String → Option Cell)) × ProfileWorld
profile_statement query (u ∷ []) w =
    if query == create_query
    then (ok (profile_row u (value_or (stored_row w u) blank) ∷ []), profile_create u w)
    else if query == get_by_id_query
    then (ok (elim (stored_row w u) [ none ↦ [] | some r ↦ profile_row u r ∷ [] ]), w)
    else (throw "no such statement", w)
profile_statement query (f ∷ l ∷ n ∷ b ∷ u ∷ []) w =
    if query == update_query
    then (if taken w u n
        then (throw "duplicate key value violates unique constraint", w)
        else (ok [], profile_set u f l n b w))
    else (throw "no such statement", w)
profile_statement query _ w = (throw "no such statement", w)

abbrev pub profile_bench : Platform
profile_bench = server_over ProfileWorld profile_statement

pub long_cell-eq :
    (o : Option String)
    → long_cell o ≡ optional_long_text (sql_server ProfileWorld profile_statement) o
long_cell-eq none = refl
long_cell-eq (some s) = refl

pub optional_cell-eq :
    (o : Option String)
    → optional_cell o ≡ optional_text (sql_server ProfileWorld profile_statement) o
optional_cell-eq none = refl
optional_cell-eq (some s) = refl

pub stored_row-create :
    (w : ProfileWorld) (u v : String)
    → stored_row (profile_create u w) v
      ≡ (if u == v then some (value_or (stored_row w u) blank) else stored_row w v)
stored_row-create w u v = elim (Bool-cases (u == v)) [
  | inl e ↦
      let same : stored_row w u ≡ stored_row w v = ap (stored_row w) ((eq_iff u v).0 e) in
      ground arith
  | inr e ↦ ground arith
]

pub stored_row-set :
    (w : ProfileWorld) (u f l n b v : String)
    → stored_row (profile_set u f l n b w) v ≡ (
        if u == v
        then elim (stored_row w v) as (λ _. Option StoredProfile) [
          | none ↦ none
          | some r ↦ some (set_texts f l n b r)
        ]
        else stored_row w v)
stored_row-set [] u f l n b v = ground arith
stored_row-set ((k, r) ∷ w) u f l n b v =
    let rest = stored_row-set w u f l n b v in ground (arith, eq_iff k u, eq_iff k v, eq_iff u v)

pub taken_lem :
    (w : ProfileWorld) (u n v : String) (s : StoredProfile)
    → stored_row w v ≡ some s
    → s.username ≡ some n
    → (u == v) ≡ false
    → taken w u n ≡ true
taken_lem [] u n v s h named differ = absurd cc
taken_lem ((k, r) ∷ w) u n v s h named differ =
    let rest = taken_lem w u n v s in ground (arith, eq_iff k u, eq_iff k v, eq_iff u v, eq_iff n n)

pub update-fits :
    (w : ProfileWorld) (u f l n b : String)
    → not (taken w u n) ≡ true
    → profile_statement update_query (f ∷ l ∷ n ∷ b ∷ u ∷ []) w ≡ (ok [], profile_set u f l n b w)
update-fits w u f l n b h = ground arith

pub update-clashes :
    (w : ProfileWorld) (u f l n b : String)
    → taken w u n ≡ true
    → (profile_statement update_query (f ∷ l ∷ n ∷ b ∷ u ∷ []) w).0
      ≡ throw "duplicate key value violates unique constraint"
update-clashes w u f l n b h = ground arith

abbrev pub profile_table : ProfileTable profile_bench
profile_table = record {
  server = sql_server ProfileWorld profile_statement;
  stored = stored_row;
  row = profile_row;
  fits_id = λ u. true;
  fits = λ w u f l n b. not (taken w u n);
  time = λ w. 0;
  ticked = λ w. w;
  selected = λ u w. w;
  created = profile_create;
  updated = profile_set;
  clock_law = λ w. refl;
  ticked_open = λ w h. h;
  ticked_stored = λ w u. refl;
  columns = λ u r. (
    refl,
    ap ok (optional_cell-eq r.first_name),
    ap ok (optional_cell-eq r.last_name),
    ap ok (optional_cell-eq r.username),
    ap ok (long_cell-eq r.bio),
    ap ok (long_cell-eq r.avatar_url),
  );
  begun_stored = λ w u. refl;
  begun_fits = λ w u f l n b. refl;
  ticked_fits = λ w u f l n b. refl;
  committed_fits = λ w u f l n b. refl;
  selected_fits = λ w u v f l n b. refl;
  committed_stored = λ w u. refl;
  select_law = λ w u h. refl;
  selected_open = λ w u h. h;
  selected_stored = λ w u v. refl;
  create_law = λ w u h fitting. refl;
  created_open = λ w u h. h;
  created_stored = stored_row-create;
  update_law = λ w u f l n b h fitting. update-fits w u f l n b fitting;
  updated_open = λ w u f l n b h. h;
  updated_stored = stored_row-set;
  unique_law = λ w u f l n b v r s h found other named differ. (
    "duplicate key value violates unique constraint",
    update-clashes w u f l n b (taken_lem w u n v s other named differ),
  );
}
