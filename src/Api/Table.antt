-- ===== src/Api/Table.antt =====
-- The table that `BuildRouteMap` makes of the flat routes is the table of the calls of `addRoute`: keys
-- that are texts, `path:number`, lose nothing and run nothing together.
use Prim.Native.String.append
use Prim.Native.Char.{Char, code}
use text.Mathlib.TextLemmas
use profile_service_cpp.Prelude.{
  String, ◌<>◌, ◌==◌, eq_iff, List, [], ◌∷◌, Option, none, some, false, ◌&&◌, ◌≡◌, ◌∙◌, sym, ap,
  refl, inl, inr, Bool-cases, value_or, nat_eq, All, arith, if◌then◌else◌,
}
use profile_service_cpp.Prelude.Dict.{Dict, find, insert, find-insert}
use profile_service_cpp.Prelude.Text.{string_eq, before_colon}
use profile_service_cpp.Http.{Verb, verb_beq, verb_beq_iff, verb_eq}
use profile_service_cpp.Api.{HandlerInfo, Route, routes, flat_key, add_routes}
use profile_service_cpp.Api.RouteMap.{
  RouteMap, assign_route, build_from, build_route_map, find_exact,
}

-- the path of a route, with no colon in it
abbrev pub HasNoColon : String → Type 0
HasNoColon path = before_colon path ≡ none

cons_eq_none :
    (c : Char) (s : String)
    → before_colon (String.◌∷◌ c s) ≡ none
    → (nat_eq (code c) b':' ≡ false) × (before_colon s ≡ none)
unfolding before_colon
cons_eq_none c s h = ground arith

pub before_colon-append :
    (path s : String) → HasNoColon path → before_colon (path <> (":" <> s)) ≡ some path
unfolding before_colon
before_colon-append String.[] s h = rw (append.nil (":" <> s), append.cons ":" "" s)
before_colon-append (String.◌∷◌ c p) s h =
    let (plain, rest) = cons_eq_none c p h in
    rw (append.cons c p, plain, before_colon-append p s rest)

-- The flat table as routes: a later call for the same path and verb replaces an earlier one.
unfoldable pub put_route : Route → List Route → List Route
put_route r [] = r ∷ []
put_route (p, i) ((q, j) ∷ rs) =
    if q == p && verb_beq j.method i.method then (p, i) ∷ rs else (q, j) ∷ put_route (p, i) rs

unfoldable pub put_routes : List Route → List Route → List Route
unfolding put_route
put_routes base [] = base
put_routes base (r ∷ rs) = put_routes (put_route r base) rs

-- the assignments `m_routeMap[path][info.Method] = info`, in turn
unfoldable pub assign_routes : RouteMap → List Route → RouteMap
unfolding assign_route
assign_routes m [] = m
assign_routes m ((path, info) ∷ rs) = assign_routes (assign_route m path info) rs

abbrev pub Plain : Route → Type 0
Plain (path, info) = HasNoColon path

build_from-nil : (m : RouteMap) → build_from m [] ≡ m
unfolding build_from
build_from-nil m = refl

module _ (label : Verb → String) (label_injective : (a b : Verb) → label a ≡ label b → a ≡ b) where
  flat_key-injective :
      (p q : String) (a b : Verb)
      → HasNoColon p
      → HasNoColon q
      → flat_key label p a ≡ flat_key label q b
      → (p ≡ q) × (a ≡ b)
  unfolding flat_key
  flat_key-injective p q a b hp hq e =
      let paths : some p ≡ some q =
        sym (before_colon-append p (label a) hp)
        ∙ ap before_colon e
        ∙ before_colon-append q (label b) hq in
      let same : p ≡ q = cc in
      let e' : p <> (":" <> label a) ≡ p <> (":" <> label b) =
        e ∙ ap (λ t. t <> (":" <> label b)) (sym same) in
      (
        same,
        label_injective a b
            (TextLemmas.append_cancel_left ":" _ _ (TextLemmas.append_cancel_left p _ _ e')),
      )

  flat_key_eq :
      (p q : String) (a b : Verb)
      → HasNoColon p
      → HasNoColon q
      → (flat_key label p a == flat_key label q b) ≡ (p == q && verb_beq a b)
  flat_key_eq p q a b hp hq = ground (
    arith,
    eq_iff (flat_key label p a) (flat_key label q b),
    eq_iff p q,
    verb_beq_iff a b,
    flat_key-injective p q a b hp hq,
  )

  abbrev pub enc : Route → String × HandlerInfo
  enc (path, info) = (flat_key label path info.method, info)

  abbrev pub enc_all : List Route → Dict String HandlerInfo
  enc_all [] = []
  enc_all (r ∷ rs) = enc r ∷ enc_all rs

  insert-enc :
      (p : String) (i : HandlerInfo) (base : List Route)
      → HasNoColon p
      → All Plain base
      → insert (flat_key label p i.method) i (enc_all base) ≡ enc_all (put_route (p, i) base)
  unfolding insert put_route
  insert-enc p i [] hp h = refl
  insert-enc p i ((q, j) ∷ rs) hp (hq, h) =
      rw (flat_key_eq q p j.method i.method hq hp)
        (elim (Bool-cases (q == p && verb_beq j.method i.method)) [
          | inl hit ↦ rw hit
          | inr miss ↦ rw miss (ap (λ t. enc (q, j) ∷ t) (insert-enc p i rs hp h))
        ])

  put_route-Plain :
      (p : String) (i : HandlerInfo) (base : List Route)
      → HasNoColon p
      → All Plain base
      → All Plain (put_route (p, i) base)
  unfolding put_route
  put_route-Plain p i [] hp h = (hp, tt)
  put_route-Plain p i ((q, j) ∷ rs) hp (hq, h) =
      elim (Bool-cases (q == p && verb_beq j.method i.method)) [
        | inl hit ↦ rw hit (hp, h)
        | inr miss ↦ rw miss (hq, put_route-Plain p i rs hp h)
      ]

  pub add_routes-enc :
      (rs base : List Route)
      → All Plain base
      → All Plain rs
      → add_routes label (enc_all base) rs ≡ enc_all (put_routes base rs)
  unfolding add_routes put_routes
  add_routes-enc [] base h k = refl
  add_routes-enc ((p, i) ∷ rs) base h (hp, k) =
      rw (insert-enc p i base hp h)
        (add_routes-enc rs (put_route (p, i) base) (put_route-Plain p i base hp h) k)

  pub build_from-cons :
      (m : RouteMap) (key path : String) (i : HandlerInfo) (flat : Dict String HandlerInfo)
      → before_colon key ≡ some path
      → build_from m ((key, i) ∷ flat) ≡ build_from (assign_route m path i) flat
  unfolding build_from
  build_from-cons m key path i flat h = rw (h, build_from)

  build_from-enc :
      (rs : List Route) (m : RouteMap)
      → All Plain rs
      → build_from m (enc_all rs) ≡ assign_routes m rs
  unfolding flat_key assign_routes
  build_from-enc [] m h = build_from-nil m
  build_from-enc ((p, i) ∷ rs) m (hp, h) =
      build_from-cons m _ p i _ (before_colon-append p (label i.method) hp)
      ∙ build_from-enc rs (assign_route m p i) h

pub routes-Plain : All Plain routes
unfolding routes before_colon
routes-Plain = search tt

pub put_routes-routes : put_routes [] routes ≡ routes
unfolding put_routes routes
put_routes-routes = refl

-- Where distinct verbs have distinct numbers, the table that the request manager builds from the flat
-- routes is the one that the calls of `addRoute` describe, assigned in their order.
pub build_route_map-eq :
    (label : Verb → String)
    → ((a b : Verb) → label a ≡ label b → a ≡ b)
    → build_route_map label ≡ assign_routes [] routes
unfolding build_route_map
build_route_map-eq label inj =
    ap (build_from []) (add_routes-enc label inj routes [] tt routes-Plain)
    ∙ rw put_routes-routes (build_from-enc label inj routes [] routes-Plain)

-- The route that a list of calls of `addRoute` gives to a path and a verb: the last one for them.
unfoldable pub lookup_route : List Route → String → Verb → Option HandlerInfo
lookup_route [] path method = none
lookup_route ((q, i) ∷ rs) path method = elim (lookup_route rs path method) [
  | some later ↦ some later
  | none ↦ if verb_beq i.method method && path == q then some i else none
]

find_in_empty : (method : Verb) → find {V = HandlerInfo} method [] ≡ none
unfolding find
find_in_empty method = refl

find_exact-assign_route :
    (m : RouteMap) (q p : String) (i : HandlerInfo) (method : Verb)
    → find_exact (assign_route m q i) p method
      ≡ (if q == p && verb_beq i.method method then some i else find_exact m p method)
unfolding find_exact assign_route
find_exact-assign_route m q p i method = ground (
  arith,
  find-insert q p (insert i.method i (value_or (find q m) [])) m,
  find-insert i.method method i (value_or (find q m) []),
  eq_iff q p,
  find_in_empty method,
)

pub find_exact-assign_routes :
    (rs : List Route) (m : RouteMap) (p : String) (method : Verb)
    → find_exact (assign_routes m rs) p method
      ≡ (elim (lookup_route rs p method) [ some i ↦ some i | none ↦ find_exact m p method ])
unfolding assign_routes lookup_route
find_exact-assign_routes [] m p method = refl
find_exact-assign_routes ((q, i) ∷ rs) m p method = ground (
  arith,
  find_exact-assign_routes rs (assign_route m q i) p method,
  find_exact-assign_route m q p i method,
  eq_iff q p,
  eq_iff p q,
)

pub nothing_more :
    (o : Option HandlerInfo) (path : String) (method : Verb)
    → (elim o [ some i ↦ some i | none ↦ find_exact [] path method ]) ≡ o
unfolding find_exact
nothing_more o path method = ground arith

-- Where distinct verbs have distinct numbers, the built table holds for every path and verb what the
-- last call of `addRoute` for them registered, and nothing where there is none.
pub find_exact-build_route_map :
    (label : Verb → String)
    → ((a b : Verb) → label a ≡ label b → a ≡ b)
    → (path : String) (method : Verb)
    → find_exact (build_route_map label) path method ≡ lookup_route routes path method
find_exact-build_route_map label inj path method =
    rw (build_route_map-eq label inj)
      (find_exact-assign_routes routes [] path method ∙ nothing_more _ path method)
