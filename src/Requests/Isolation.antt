-- ===== src/Requests/Isolation.antt =====
-- Whoever sends a request, what it can change.
mod Tests
use profile_service_cpp.Prelude.{
  String, ◌==◌, starts_with, true, false, Option, none, some, List, [], ◌∷◌, map, ◌≡◌, ◌∙◌, refl,
  sym, ap, subst, value_or, inl, inr, All, arith, if◌then◌else◌,
}
use profile_service_cpp.Platform.{Platform}
use profile_service_cpp.Effect.{Result, ok, throw, Action, ret, raise, lift, ◌>>=◌}
use profile_service_cpp.Effect.Keeps.{
  Keeps, Keeps-ret, Keeps-raise, Keeps-if, Keeps-bind, Keeps-lift, Keeps-try_catch, keeps_rules,
}
use profile_service_cpp.Effect.Yields.{
  Yields, Yields-ret, Yields-raise, Yields-try_catch, Yields-bind, Yields-after,
}
use profile_service_cpp.Http.{HttpRequest}
use profile_service_cpp.Storage.{MinioStorage}
use profile_service_cpp.Models.{Profile}
use profile_service_cpp.Mappers.{map_profile}
use profile_service_cpp.Database.Value.{DbValue, string_value, convert_value}
use profile_service_cpp.Database.Row.{get_string_value}
use profile_service_cpp.Database.ResultSet.{PostgresResultSet, new_result_set, empty, get_row_at}
use profile_service_cpp.Database.Confined.{
  execute_select-Keeps, execute_modify-Keeps, execute_select-Yields, execute_select-closed,
  execute_modify-closed,
}
use profile_service_cpp.Database.Executor.{
  QueryExecutor, open_connection, execute_select, execute_modify,
}
use profile_service_cpp.Repository.Rows.{first_row}
use profile_service_cpp.Repository.ProfileRepository.{create_query, get_by_id_query, get_by_id}
use profile_service_cpp.Repository.Confined.{owner, Confined}
use profile_service_cpp.Api.RouteMap.{RouteMap}
use profile_service_cpp.Requests.RequestManager.{
  AuthChecker, extract_user_id, is_internal_create_profile, handle,
}
use profile_service_cpp.Requests.Reading.{KeptByReads}
use profile_service_cpp.Requests.Confined.{handle-Keeps}

-- What a property of the world must stand to belong to others than the user `u`: the clock and the
-- bounds of a work keep it, and so does every statement that reads, and every one whose owner is `u`;
-- and a select of a profile by its key gives rows with that key.
pub record Foreign (P : Platform) (u : String) (I : P.World → Type 0) : Type 0 where
  pub reads : KeptByReads P I
  pub write_kept :
      (query : String) (params : List String) (w : P.World)
      → owner query params ≡ some u
      → I w
      → I (P.exec_params query params w).1
  pub own_rows :
      (w : P.World) (rows : List P.Row)
      → (P.exec_params get_by_id_query (u ∷ []) w).0 ≡ ok rows
      → All (λ row. get_string_value P (some row) "user_id" ≡ ok (some u)) rows

module _ (P : Platform) (u : String) where
  own_id : (o : Option String) → o ≡ some u → value_or o "" ≡ u
  own_id o e = ap (λ o. value_or o "") e

  module _ (row : P.Row) (own : get_string_value P (some row) "user_id" ≡ ok (some u)) where
    user_id-Yields :
        (f : Option String → Action P.World (Profile P))
        → ((o : Option String) → o ≡ some u → Yields (λ p. p.user_id ≡ u) (f o))
        → Yields (λ p. p.user_id ≡ u) (lift (get_string_value P (some row) "user_id") >>= f)
    user_id-Yields f k =
        Yields-bind (λ o. o ≡ some u) (lift (get_string_value P (some row) "user_id")) f
          (record { at = λ w o e. ground arith }) k

    map_profile-Yields : Yields (λ p. p.user_id ≡ u) (map_profile P (some row))
    unfolding map_profile
    map_profile-Yields = search (user_id-Yields, Yields-after, Yields-ret, own_id) depth 14

  first_row-Yields :
      (rows : List P.Row)
      → All (λ row. get_string_value P (some row) "user_id" ≡ ok (some u)) rows
      → Yields
          (λ p. p.user_id ≡ u)
          (first_row P (map_profile P) (new_result_set P rows) (raise "Profile not found"))
  unfolding first_row get_row_at
  first_row-Yields [] h = Yields-raise _
  first_row-Yields (row ∷ rows) (own, h) = record {
    at = λ w p e. (map_profile-Yields row own).at w p e;
  }

  module _ (x : QueryExecutor) (I : P.World → Type 0) (foreign : Foreign P u I) where
    get_by_id-Yields : Yields (λ p. p.user_id ≡ u) (get_by_id P x u)
    unfolding get_by_id convert_value
    get_by_id-Yields =
        Yields-bind _ (execute_select P x get_by_id_query (string_value u ∷ [])) _
          (execute_select-Yields P get_by_id_query (string_value u) []
            (All (λ row. get_string_value P (some row) "user_id" ≡ ok (some u)))
            (record { at = foreign.own_rows }) x)
          λ r (rows, same, own).
            subst
              (λ r.
                Yields (λ p. p.user_id ≡ u)
                  (first_row P (map_profile P) r (raise "Profile not found")))
              (sym same) (first_row-Yields rows own)

    foreign-Confined : Confined P x (Unit {0}) (λ v. v ≡ u) I
    unfolding convert_value
    foreign-Confined =
        let began : Keeps I P.begin_work = record { at = foreign.reads.begin_kept } in
        let committed : Keeps I P.commit_work = record { at = foreign.reads.commit_kept } in
        let aborted : Keeps I P.abort_work = record { at = foreign.reads.abort_kept } in
        record {
          now_kept = λ sends. record { at = foreign.reads.now_kept };
          select_sends = λ query p ps w i r e. tt;
          select_kept = λ query p ps reads.
              execute_select-Keeps P I began committed aborted query p ps
                (record { at = λ w. foreign.reads.read_kept query _ w reads }) x;
          create_kept = λ v own.
              execute_select-Keeps P I began committed aborted create_query (string_value v) []
                (record { at = λ w. foreign.write_kept create_query (v ∷ []) w (ap some own) }) x;
          modify_kept = λ query p ps v owned own.
              execute_modify-Keeps P I began committed aborted query p ps
                (record { at = λ w. foreign.write_kept query _ w (owned ∙ ap some own) }) x;
          own_profile = λ v w found own e.
              get_by_id-Yields.at w found (ap (λ t. (get_by_id P x t w).0) (sym own) ∙ e);
        }

module _ (P : Platform) (x : QueryExecutor) (storage : MinioStorage) (check : AuthChecker)
    (m : RouteMap) (q : HttpRequest) where
  -- A request that is not the internal creation of a profile, whatever the route table and the checker,
  -- changes nothing that belongs to others than its caller: whatever the clock, the bounds of a work, the
  -- statements that read and those whose owner is the caller keep is as it was after the answer.
  pub handle_isolated :
      (I : P.World → Type 0)
      → Foreign P (extract_user_id q) I
      → is_internal_create_profile q ≡ false
      → (w : P.World) → I w
      → I (handle P x storage check m q w).1
  handle_isolated I foreign outer =
      (handle-Keeps P x (Unit {0}) (λ v. v ≡ extract_user_id q) I
        (foreign-Confined P (extract_user_id q) x I foreign) storage q (λ e v. absurd cc)
        (λ _. refl) check m).at

  module _ (w : P.World) (closed : P.is_open w ≡ false) where
    select_idle :
        (query : String) (p : DbValue P) (ps : List (DbValue P))
        → Keeps (λ w'. w' ≡ w) (execute_select P x query (p ∷ ps))
    select_idle query p ps = record {
      at = λ w' same.
          ap (λ t. t.1) (execute_select-closed P x w' (ap P.is_open same ∙ closed) query p ps)
          ∙ same;
    }

    modify_idle :
        (query : String) (p : DbValue P) (ps : List (DbValue P))
        → Keeps (λ w'. w' ≡ w) (execute_modify P x query (p ∷ ps))
    modify_idle query p ps = record {
      at = λ w' same.
          ap (λ t. t.1) (execute_modify-closed P x w' (ap P.is_open same ∙ closed) query p ps)
          ∙ same;
    }

    select_fails :
        (query : String) (p : DbValue P) (ps : List (DbValue P)) (w' : P.World)
        → w' ≡ w
        → (r : PostgresResultSet P) → (execute_select P x query (p ∷ ps) w').0 ≡ ok r
        → ⊥
    select_fails query p ps w' same r e =
        let failed =
          ap (λ t. t.0) (execute_select-closed P x w' (ap P.is_open same ∙ closed) query p ps) in
        cc

    closed-Confined : Confined P x ⊥ (λ v. Unit {0}) (λ w'. w' ≡ w)
    closed-Confined = record {
      now_kept = λ never. absurd never;
      select_sends = select_fails;
      select_kept = λ query p ps reads. select_idle query p ps;
      create_kept = λ v own. select_idle create_query (string_value v) [];
      modify_kept = λ query p ps v owned own. modify_idle query p ps;
      own_profile = λ v w found own e. tt;
    }

  -- While the connection is not open, no request changes anything: the world after the answer is the one
  -- before the request, whatever the route table and the checker.
  pub handle_closed : (w : P.World) → P.is_open w ≡ false → (handle P x storage check m q w).1 ≡ w
  handle_closed w closed =
      (handle-Keeps P x ⊥ (λ v. Unit {0}) (λ w'. w' ≡ w) (closed-Confined w closed) storage q
          (λ e v. tt) (λ _. tt) check m).at
        w refl
