-- ===== src/Requests/Reading.antt =====
-- GET requests only read.
use profile_service_cpp.Prelude.{String, starts_with, true, false, List, ◌≡◌, arith}
use profile_service_cpp.Platform.{Platform}
use profile_service_cpp.Http.{get, post, verb_beq, verb_beq_iff, HttpRequest}
use profile_service_cpp.Storage.{MinioStorage}
use profile_service_cpp.Database.Confined.{execute_select-Keeps}
use profile_service_cpp.Database.Executor.{QueryExecutor}
use profile_service_cpp.Repository.Confined.{Confined}
use profile_service_cpp.Api.RouteMap.{RouteMap}
use profile_service_cpp.Requests.RequestManager.{AuthChecker, is_internal_create_profile, handle}
use profile_service_cpp.Requests.Confined.{handle-Keeps}

-- What reading keeps: the clock, the bounds of a work and every statement that begins with SELECT keep it.
pub record KeptByReads (P : Platform) (I : P.World → Type 0) : Type 0 where
  pub now_kept : (w : P.World) → I w → I (P.now w).1
  pub begin_kept : (w : P.World) → I w → I (P.begin_work w).1
  pub commit_kept : (w : P.World) → I w → I (P.commit_work w).1
  pub abort_kept : (w : P.World) → I w → I (P.abort_work w).1
  pub read_kept :
      (query : String) (params : List String) (w : P.World)
      → starts_with query "SELECT" ≡ true
      → I w
      → I (P.exec_params query params w).1

module _ (P : Platform) (x : QueryExecutor) where
  -- nobody is allowed to write
  reads-Confined : (I : P.World → Type 0) → KeptByReads P I → Confined P x (Unit {0}) (λ v. ⊥) I
  reads-Confined I kept = record {
    now_kept = λ sends. record { at = kept.now_kept };
    select_sends = λ query p ps w i r e. tt;
    select_kept = λ query p ps reads.
        execute_select-Keeps P I (record { at = kept.begin_kept })
          (record { at = kept.commit_kept }) (record { at = kept.abort_kept }) query p ps
          (record { at = λ w. kept.read_kept query _ w reads }) x;
    create_kept = λ v none. absurd none;
    modify_kept = λ query p ps v owned none. absurd none;
    own_profile = λ v w found none e. none;
  }

  gets_nothing_internal :
      (q : HttpRequest) → verb_beq q.method get ≡ true → is_internal_create_profile q ≡ false
  unfolding is_internal_create_profile
  gets_nothing_internal q h = ground (arith, verb_beq_iff q.method get, verb_beq_iff q.method post)

  -- A GET request only reads, whatever its path, its caller, the route table and the checker: what the clock,
  -- the bounds of a work and the statements that begin with SELECT keep is as it was after the answer.
  pub get_only_reads :
      (storage : MinioStorage) (check : AuthChecker) (m : RouteMap) (q : HttpRequest)
      → (I : P.World → Type 0) → KeptByReads P I
      → q.method ≡ get
      → (w : P.World) → I w
      → I (handle P x storage check m q w).1
  get_only_reads storage check m q I kept gets =
      let is_get : verb_beq q.method get ≡ true = (verb_beq_iff q.method get).1 gets in
      let outer = gets_nothing_internal q is_get in
      (handle-Keeps P x (Unit {0}) (λ v. ⊥) I (reads-Confined I kept) storage q (λ e v. absurd cc)
        (λ other. absurd cc) check m).at
