-- ===== src/Bench.antt =====
-- A platform to run the service on: a server that keeps the statements it is sent, refuses those that
-- update and answers the others with one row of empty texts; JSON as a list of assignments; verbs numbered
-- by texts.
pub mod Tables
pub mod Favorites
pub mod Contacts
pub mod Profiles
use profile_service_cpp.Prelude.{
  ℕ, zero, suc, String, ◌<>◌, ◌==◌, len, starts_with, Bool, true, false, none, some, List, [], ◌∷◌,
  ◌≡◌, ◌∙◌, sym, ap, refl, arith, if◌then◌else◌,
}
use profile_service_cpp.Prelude.Dict.{insert}
use profile_service_cpp.Prelude.Text.{string_eq, substr}
use profile_service_cpp.Prelude.Text.Laws.{substr-append, starts_with-append_lem}
use text.Mathlib.TextPositions.{len-append}
use profile_service_cpp.Platform.{Platform}
use profile_service_cpp.Effect.{Result, ok, throw}
use profile_service_cpp.Http.{Verb, get, post, put, patch, delete_, options, other, HttpRequest}
use profile_service_cpp.Storage.{MinioStorage}
use profile_service_cpp.Database.Executor.{QueryExecutor}

pub data Json : Type 0 where
  null empty_array : Json
  quoted : String → Json
  number : ℕ → Json
  flag : Bool → Json
  field : Json → String → Json → Json
  item : Json → Json → Json

abbrev contains : Json → String → Bool
contains (field rest key value) wanted = if key == wanted then true else contains rest wanted
contains _ wanted = false

abbrev at : Json → String → Result Json
at (field rest key value) wanted = if key == wanted then ok value else at rest wanted
at _ wanted = throw "no such key"

abbrev get_string : Json → Result String
get_string (quoted s) = ok s
get_string _ = throw "not a string"

abbrev pub bench : Platform
bench = record {
  Int64 = ℕ;
  Double = ℕ;
  TimePoint = ℕ;
  int64_to_string = λ n. "0";
  double_to_string = λ d. "0.0";
  epoch = 0;
  seconds = λ t. t;
  Tm = ℕ;
  get_time = λ s format. none;
  mktime = λ tm. tm;
  to_time_t = λ t. t;
  gmtime = λ n. n;
  strftime = λ format tm. "";
  getenv = λ name. if name == "DATABASE_URL" then some "postgresql://bench" else none;
  parse_command_line = λ args. ok (false, "0.0.0.0", 8082);
  uninitialised = false;
  Json = Json;
  parse = λ s. if s == "" then throw "parse error" else ok (field null "user_id" (quoted s));
  dump = λ j. ok "{}";
  contains = contains;
  at = at;
  is_null = λ j. false;
  get_string = get_string;
  value_string = λ j key default. if contains j key then ok key else ok default;
  value_bool = λ j key default. ok default;
  null = null;
  empty_array = empty_array;
  of_string = quoted;
  of_int64 = number;
  of_bool = flag;
  assign = field;
  push_back = item;
  World = List String;
  now = λ w. (ok 0, w);
  Row = List String;
  Field = String;
  column = λ row name. ok "";
  column_at = λ row index. throw "no such column";
  row_size = λ row. 0;
  field_is_null = λ f. false;
  type_name = λ f. ok "text";
  as_bool = λ f. ok true;
  as_int64 = λ f. ok 0;
  as_double = λ f. ok 0;
  as_string = λ f. ok f;
  as_blob = λ f. ok [];
  connect = λ s w. (ok tt, w);
  is_open = λ w. true;
  close = λ w. (ok tt, w);
  begin_work = λ w. (ok tt, w);
  exec = λ query w. (ok [], query ∷ w);
  exec_params = λ query params w.
      if starts_with query "UPDATE"
      then (throw "refused", query ∷ w)
      else (ok (("" ∷ []) ∷ []), query ∷ w);
  commit_work = λ w. (ok tt, "commit" ∷ w);
  abort_work = λ w. (ok tt, "abort" ∷ w);
  set_field = λ name value r. record r { headers = insert name value r.headers };
  keep_alive = λ b r. if b then r else record r { headers = insert "Connection" "close" r.headers };
}

abbrev pub executor : QueryExecutor
executor = record { connection = some (record { has_connection = true; is_open_flag = true }) }

abbrev pub storage : MinioStorage
storage = record { endpoint = ""; access_key = ""; secret_key = "" }

-- a request by a user, or by nobody where the user is the empty text, with a body
abbrev pub request : Verb → String → String → String → HttpRequest
request method target user body = record {
  method = method;
  target = target;
  version = 11;
  header = λ name. if name == "X-User-ID" then some user else none;
  body = body;
}

abbrev pub strokes : ℕ → String
strokes zero = ""
strokes (suc n) = "i" <> strokes n

abbrev pub label : Verb → String
label delete_ = "1"
label get = "2"
label post = "3"
label put = "4"
label options = "6"
label patch = "24"
label (other n) = "i" <> strokes n

pub stroke_count_lem : (n : ℕ) → len (strokes n) ≡ n
stroke_count_lem zero = refl
stroke_count_lem (suc n) =
    let before = stroke_count_lem n in let all = len-append "i" (strokes n) in omega arith

abbrev verb_of : String → Verb
verb_of s =
    if starts_with s "i"
    then other (len (substr s 1))
    else if s == "1"
    then delete_
    else if s == "2"
    then get
    else if s == "3"
    then post
    else if s == "4"
    then put
    else if s == "6"
    then options
    else patch

verb_of-label : (v : Verb) → verb_of (label v) ≡ v
verb_of-label get = refl
verb_of-label post = refl
verb_of-label put = refl
verb_of-label patch = refl
verb_of-label delete_ = refl
verb_of-label options = refl
verb_of-label (other n) =
    rw (starts_with-append_lem "i" (strokes n), substr-append "i" (strokes n))
      (ap other (stroke_count_lem n))

pub label_injective : (a b : Verb) → label a ≡ label b → a ≡ b
label_injective a b e = sym (verb_of-label a) ∙ ap verb_of e ∙ verb_of-label b
