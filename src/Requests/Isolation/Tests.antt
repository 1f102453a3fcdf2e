-- ===== src/Requests/Isolation/Tests.antt =====
-- Requests that change nothing of others, on concrete platforms.
use profile_service_cpp.Prelude.{
  ◌≢◌, String, ◌==◌, eq_iff, starts_with, true, false, none, some, List, [], ◌∷◌, ◌≡◌, ◌∙◌, refl,
  sym, ap, subst, inl, inr, Bool-cases, value_or, arith, if◌then◌else◌,
}
use profile_service_cpp.Platform.{Platform}
use profile_service_cpp.Models.{PrivacySettings}
use profile_service_cpp.Http.{get, put, HttpRequest}
use profile_service_cpp.Api.RouteMap.{build_route_map}
use profile_service_cpp.Repository.PrivacyRepository.{get_query, update_query}
use profile_service_cpp.Repository.Sql.{open_executor}
use profile_service_cpp.Repository.Confined.{owner}
use profile_service_cpp.Requests.RequestManager.{
  simple_auth_checker, extract_user_id, is_internal_create_profile, handle,
}
use profile_service_cpp.Requests.Reading.{KeptByReads, get_only_reads}
use profile_service_cpp.Requests.Isolation.{Foreign, handle_isolated, handle_closed}
use profile_service_cpp.Bench.{bench, executor, storage, request, label}
use profile_service_cpp.Bench.Tables.{PrivacyWorld, privacy_statement, privacy_bench, privacy_table}

abbrev settings : PrivacySettings
settings = record {
  user_id = "bob";
  profile_visibility = "nobody";
  last_seen_visibility = "nobody";
  avatar_visibility = "nobody";
}

-- the settings of Bob are these
abbrev Bobs : PrivacyWorld → Type 0
Bobs w = w "bob" ≡ some settings

abbrev alice : String
alice = "alice"

statement_keeps :
    (query : String) (params : List String) (w : PrivacyWorld)
    → (query ≡ update_query → owner query params ≡ some alice)
    → Bobs w
    → Bobs (privacy_statement query params w).1
statement_keeps query [] w own h = h
statement_keeps query (u ∷ []) w own h = elim (Bool-cases (query == get_query)) [
  | inl e ↦ ground arith
  | inr e ↦ ground arith
]
statement_keeps query (u ∷ p ∷ []) w own h = h
statement_keeps query (u ∷ p ∷ l ∷ []) w own h = h
statement_keeps query (u ∷ p ∷ l ∷ a ∷ []) w own h = elim (Bool-cases (query == update_query)) [
  | inl e ↦
      let same : query ≡ update_query = (eq_iff query update_query).0 e in
      let owned : some u ≡ some alice =
        subst (λ t. owner t (u ∷ p ∷ l ∷ a ∷ []) ≡ some alice) same (own same) in
      let other : (u == "bob") ≡ false = ap (λ o. value_or o "" == "bob") owned in ground arith
  | inr e ↦ ground arith
]
statement_keeps query (u ∷ p ∷ l ∷ a ∷ b ∷ rest) w own h = h

abbrev from_alice : HttpRequest
from_alice = request put "/me/privacy" "alice" "x"

update_query_writes : (t : String) → starts_with t "SELECT" ≡ true → t ≢ update_query
update_query_writes t h e =
    let differ : true ≡ false = sym h ∙ ap (λ t. starts_with t "SELECT") e in cc

reads_keep : KeptByReads privacy_bench Bobs
reads_keep = record {
  now_kept = λ w h. h;
  begin_kept = λ w h. h;
  commit_kept = λ w h. h;
  abort_kept = λ w h. h;
  read_kept = λ query params w reads h.
      statement_keeps query params w (λ e. absurd (update_query_writes query reads e)) h;
}

foreign : Foreign privacy_bench "alice" Bobs
foreign = record {
  reads = reads_keep;
  write_kept = λ query params w owned h. statement_keeps query params w (λ e. owned) h;
  own_rows = λ w rows e. absurd cc;
}

by_alice : extract_user_id from_alice ≡ "alice"
unfolding extract_user_id
by_alice = refl

outer : is_internal_create_profile from_alice ≡ false
unfolding is_internal_create_profile
outer = refl

-- a table with the settings of Bob
abbrev bob_only : PrivacyWorld
bob_only u = if u == "bob" then some settings else none

handle_isolated_example :
    (handle privacy_bench
        (open_executor privacy_bench privacy_table.server)
        storage
        simple_auth_checker
        (build_route_map label)
        from_alice
        bob_only).1
      "bob"
    ≡ some settings
handle_isolated_example =
    handle_isolated privacy_bench (open_executor privacy_bench privacy_table.server) storage
      simple_auth_checker (build_route_map label) from_alice Bobs
      (subst (λ u. Foreign privacy_bench u Bobs) (sym by_alice) foreign) outer bob_only refl

-- the platform with its connection closed
abbrev shut : Platform
shut = record bench { is_open = λ w. false }

handle_closed_example :
    (handle shut executor storage simple_auth_checker (build_route_map label) from_alice []).1 ≡ []
handle_closed_example =
    handle_closed shut executor storage simple_auth_checker (build_route_map label) from_alice []
      refl

get_only_reads_example :
    (handle privacy_bench
        (open_executor privacy_bench privacy_table.server)
        storage
        simple_auth_checker
        (build_route_map label)
        (request get "/me/privacy" "bob" "")
        bob_only).1
      "bob"
    ≡ some settings
get_only_reads_example =
    get_only_reads privacy_bench (open_executor privacy_bench privacy_table.server) storage
      simple_auth_checker (build_route_map label) (request get "/me/privacy" "bob" "") Bobs
      reads_keep refl bob_only refl
