-- ===== src/Handlers/Common.antt =====
-- What the handlers share: the JSON objects that they answer with, and their two ways out.
use profile_service_cpp.Prelude.{ℕ, String, Option, some, List, [], ◌∷◌, if◌then◌else◌}
use profile_service_cpp.Platform.{Platform}
use profile_service_cpp.Effect.{Result, ok, throw, Action, ret, lift, ◌>>=◌}
use profile_service_cpp.Http.{HttpRequest, HttpResponse, json_response, error_response}

module _ (P : Platform) where
  abbrev pub Handled : Type 0
  Handled = Action P.World HttpResponse

  abbrev assign_all : P.Json → List (String × P.Json) → P.Json
  assign_all j [] = j
  assign_all j ((key, value) ∷ fields) = assign_all (P.assign j key value) fields

  -- `json j; j[k] = v; …`, and the literal `{{k, v}, …}` over distinct keys
  abbrev pub object : List (String × P.Json) → P.Json
  object fields = assign_all P.null fields

  -- `return ErrorResponse(status, request.version(), error)`
  abbrev pub fail : ℕ → HttpRequest → String → Handled
  fail status request error = ret (error_response status request.version error)

  -- `return JsonResponse(status, request.version(), body)`
  abbrev pub answer : ℕ → HttpRequest → String → Handled
  answer status request body = ret (json_response status request.version body)

  -- `return JsonResponse(status, request.version(), j.dump())`
  abbrev pub answer_json : ℕ → HttpRequest → P.Json → Handled
  answer_json status request j = do body ← lift (P.dump j); answer status request body

  -- `j[key].get<std::string>()`
  abbrev pub read_string : P.Json → String → Result String
  read_string j key = elim (P.at j key) [ ok value ↦ P.get_string value | throw e ↦ throw e ]

  -- `if (j.contains(key)) field = j[key].get<std::string>();`
  abbrev pub read_field : P.Json → String → Option String → Result (Option String)
  read_field j key old =
      if P.contains j key
      then elim (read_string j key) [ ok s ↦ ok (some s) | throw e ↦ throw e ]
      else ok old
