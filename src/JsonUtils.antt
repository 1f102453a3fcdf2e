-- ===== src/JsonUtils.antt =====
-- The time and JSON helpers of include/profile_service/utils/json_utils.hpp, which nothing calls.
use profile_service_cpp.Prelude.{String, Option, none, some}
use profile_service_cpp.Platform.{Platform}
use profile_service_cpp.Effect.{Result, ok, throw}

module _ (P : Platform) where
  unfoldable pub parse_timestamp : String → Result P.TimePoint
  parse_timestamp timestamp = elim (P.get_time timestamp "%Y-%m-%dT%H:%M:%S") [
    | none ↦ throw "Invalid timestamp format"
    | some tm ↦ ok (P.mktime tm)
  ]

  unfoldable pub format_timestamp : P.TimePoint → String
  format_timestamp tp = P.strftime "%Y-%m-%dT%H:%M:%SZ" (P.gmtime (P.to_time_t tp))

  -- `to_json` is nlohmann's conversion of a `T`.
  unfoldable pub optional_to_json : {T : Type 0} → (T → P.Json) → Option T → P.Json
  optional_to_json to_json none = P.null
  optional_to_json to_json (some value) = to_json value
