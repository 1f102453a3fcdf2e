-- ===== src/Http.antt =====
-- include/profile_service/handlers/ihandler.hpp: requests, responses and the context of a route.
-- `prepare_payload`, which sets the length header from the body, is Boost.Beast's and left out.
use profile_service_cpp.Prelude.{ℕ, String, ◌<>◌, Bool, true, false, Option, [], ◌≡◌, ◌↔◌, arith}
use profile_service_cpp.Prelude.{nat_eq, nat_eq_iff}
use profile_service_cpp.Prelude.Dict.{Dict, Eq, insert}
use profile_service_cpp.Prelude.Text.{string_eq}

-- `boost::beast::http::verb`: the verbs that the service names, and the others by number.
pub data Verb : Type 0 where
  get post put patch delete_ options : Verb
  other : ℕ → Verb

abbrev pub verb_beq : Verb → Verb → Bool
verb_beq get get = true
verb_beq post post = true
verb_beq put put = true
verb_beq patch patch = true
verb_beq delete_ delete_ = true
verb_beq options options = true
verb_beq (other m) (other n) = nat_eq m n
verb_beq _ _ = false

pub verb_beq_iff : (a b : Verb) → (verb_beq a b ≡ true) ↔ (a ≡ b)
verb_beq_iff (other m) (other n) = ground (arith, nat_eq_iff m n)
verb_beq_iff get b = ground arith
verb_beq_iff post b = ground arith
verb_beq_iff put b = ground arith
verb_beq_iff patch b = ground arith
verb_beq_iff delete_ b = ground arith
verb_beq_iff options b = ground arith
verb_beq_iff (other m) b = ground arith

instance abbrev pub verb_eq : Eq Verb
verb_eq = record { beq = verb_beq; beq_iff = verb_beq_iff }

-- `request.find(name)`, which goes by Boost.Beast's rules for field names, is a function of the request.
pub record HttpRequest : Type 0 where
  pub method : Verb
  pub target : String
  pub version : ℕ
  pub header : String → Option String
  pub body : String

pub record HttpResponse : Type 0 where
  pub status : ℕ
  pub version : ℕ
  pub headers : Dict String String
  pub body : String

pub record RouteContext : Type 0 where
  pub path_params : Dict String String
  pub user_id : String

unfoldable pub json_response : ℕ → ℕ → String → HttpResponse
unfolding insert
json_response status version body = record {
  status = status;
  version = version;
  headers = insert "Content-Type" "application/json" [];
  body = body;
}

unfoldable pub error_response : ℕ → ℕ → String → HttpResponse
unfolding json_response
error_response status version error =
    json_response status version ("{\"error\":\"" <> error <> "\"}")
