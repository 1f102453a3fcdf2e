-- ===== src/Platform.antt =====
-- What the service calls and does not implement: the standard library's clock and time texts,
-- nlohmann::json, libpqxx with the PostgreSQL server behind it, the environment's variables and the
-- command line's parser. Every definition that uses one of them takes a `Platform`; nothing is assumed of it here.
use profile_service_cpp.Prelude.{ℕ, String, Bool, Option, List}
use profile_service_cpp.Effect.{Result, Action}
use profile_service_cpp.Http.{HttpResponse}

pub record Platform : Type 1 where
  -- `int64_t`, `double` and `std::chrono::system_clock::time_point`
  pub Int64 : Type 0
  pub Double : Type 0
  pub TimePoint : Type 0
  -- `std::to_string`
  pub int64_to_string : Int64 → String
  pub double_to_string : Double → String
  -- a default-constructed time point
  pub epoch : TimePoint
  -- `duration_cast<seconds>(t.time_since_epoch()).count()`
  pub seconds : TimePoint → Int64
  -- `std::tm`; `std::get_time` with a format, `none` where the stream fails
  pub Tm : Type 0
  pub get_time : String → String → Option Tm
  -- `from_time_t(mktime(…))`, which goes by the local time zone, and `to_time_t`
  pub mktime : Tm → TimePoint
  pub to_time_t : TimePoint → Int64
  -- `std::gmtime`, and `std::strftime` and `std::put_time` with a format
  pub gmtime : Int64 → Tm
  pub strftime : String → Tm → String
  -- `std::getenv`
  pub getenv : String → Option String
  -- `parse_command_line` for the options of `main`: whether help is asked for, the address, the port
  pub parse_command_line : List String → Result (Bool × String × ℕ)
  -- what a `bool` holds that nothing has initialised
  pub uninitialised : Bool
  -- nlohmann::json: parsing and printing, reading a value, and building one
  pub Json : Type 0
  pub parse : String → Result Json
  pub dump : Json → Result String
  pub contains : Json → String → Bool
  pub at : Json → String → Result Json
  pub is_null : Json → Bool
  pub get_string : Json → Result String
  pub value_string : Json → String → String → Result String
  pub value_bool : Json → String → Bool → Result Bool
  pub null : Json
  pub empty_array : Json
  pub of_string : String → Json
  pub of_int64 : Int64 → Json
  pub of_bool : Bool → Json
  -- `j[key] = v` and `j.push_back(v)`
  pub assign : Json → String → Json → Json
  pub push_back : Json → Json → Json
  -- the world: the server, the network to it, and the clock
  pub World : Type 0
  pub now : Action World TimePoint
  -- libpqxx: a row of a result, and a field of a row
  pub Row : Type 0
  pub Field : Type 0
  -- `row[column]`, `row[index]` and `row.size()`
  pub column : Row → String → Result Field
  pub column_at : Row → ℕ → Result Field
  pub row_size : Row → ℕ
  pub field_is_null : Field → Bool
  pub type_name : Field → Result String
  pub as_bool : Field → Result Bool
  pub as_int64 : Field → Result Int64
  pub as_double : Field → Result Double
  pub as_string : Field → Result String
  pub as_blob : Field → Result (List ℕ)
  -- `pqxx::connection`: construction, `is_open` and `close`
  pub connect : String → Action World (Unit {0})
  pub is_open : World → Bool
  pub close : Action World (Unit {0})
  -- `pqxx::work`: construction, the statements, `commit` and `abort`
  pub begin_work : Action World (Unit {0})
  pub exec : String → Action World (List Row)
  pub exec_params : String → List String → Action World (List Row)
  pub commit_work : Action World (Unit {0})
  pub abort_work : Action World (Unit {0})
  -- Boost.Beast: `response.set(field, value)`, and `response.keep_alive(b)`, which goes by the header
  -- Connection
  pub set_field : String → String → HttpResponse → HttpResponse
  pub keep_alive : Bool → HttpResponse → HttpResponse
