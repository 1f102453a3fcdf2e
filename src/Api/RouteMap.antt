-- ===== src/Api/RouteMap.antt =====
-- `RequestManager::BuildRouteMap` of src/request_manager.cpp: the table by path and verb.
use profile_service_cpp.Prelude.{String, [], ◌∷◌, Option, none, some, value_or}
use profile_service_cpp.Prelude.Dict.{Dict, find, insert}
use profile_service_cpp.Prelude.Text.{string_eq, before_colon}
use profile_service_cpp.Http.{Verb, verb_eq}
use profile_service_cpp.Api.{HandlerInfo, flat_routes}

abbrev pub RouteMap : Type 0
RouteMap = Dict String (Dict Verb HandlerInfo)

-- `m_routeMap[path][info.Method] = info`
unfoldable pub assign_route : RouteMap → String → HandlerInfo → RouteMap
unfolding find insert
assign_route m path info = insert path (insert info.method info (value_or (find path m) [])) m

-- the loop over the flat routes; a key with no colon is passed over
unfoldable pub build_from : RouteMap → Dict String HandlerInfo → RouteMap
unfolding assign_route before_colon
build_from m [] = m
build_from m ((key, info) ∷ flat) =
    build_from (elim (before_colon key) [ none ↦ m | some path ↦ assign_route m path info ]) flat

unfoldable pub build_route_map : (Verb → String) → RouteMap
unfolding build_from flat_routes
build_route_map label = build_from [] (flat_routes label)

-- `findExact` of `ResolveRoute`
unfoldable pub find_exact : RouteMap → String → Verb → Option HandlerInfo
unfolding find
find_exact m path method = elim (find path m) [ none ↦ none | some handlers ↦ find method handlers ]
