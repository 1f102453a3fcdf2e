-- ===== src/Api/Order.antt =====
-- The order in which `BuildRouteMap` meets the flat routes, which `std::unordered_map` leaves open.
use profile_service_cpp.Prelude.{
  String, ◌==◌, eq_iff, List, [], ◌∷◌, none, some, Bool, false, ◌&&◌, ◌≡◌, ◌∙◌, sym, ap, refl, inl,
  inr, Option-cases, All, arith,
}
use profile_service_cpp.Prelude.Dict.{Dict}
use profile_service_cpp.Prelude.Text.{before_colon}
use profile_service_cpp.Http.{Verb, verb_beq, verb_beq_iff}
use profile_service_cpp.Api.{HandlerInfo, Route, routes, flat_key, flat_routes}
use profile_service_cpp.Api.RouteMap.{
  RouteMap, assign_route, build_from, build_route_map, find_exact,
}
use profile_service_cpp.Api.Table.{
  Plain, before_colon-append, enc_all, add_routes-enc, put_routes-routes, routes-Plain,
  assign_routes, lookup_route, find_exact-assign_routes, nothing_more, find_exact-build_route_map,
}

-- the same items in another order
pub data Reordering {ℓ} {A : Type ℓ} : List A → List A → Type ℓ where
  nil : Reordering [] []
  keep : {x : A} {xs ys : List A} → Reordering xs ys → Reordering (x ∷ xs) (x ∷ ys)
  swap : {x y : A} {xs : List A} → Reordering (x ∷ y ∷ xs) (y ∷ x ∷ xs)
  after : {xs ys zs : List A} → Reordering xs ys → Reordering ys zs → Reordering xs zs

-- the routes that a flat table stands for
decode : Dict String HandlerInfo → List Route
decode [] = []
decode ((key, info) ∷ flat) =
    let rest = decode flat in
    elim (before_colon key) [ none ↦ rest | some path ↦ (path, info) ∷ rest ]

module _ (key : String) (info : HandlerInfo) (flat : Dict String HandlerInfo) where
  decode_skip : before_colon key ≡ none → decode ((key, info) ∷ flat) ≡ decode flat
  unfolding decode
  decode_skip h = rw (h, decode)

  decode_take :
      {path : String}
      → before_colon key ≡ some path
      → decode ((key, info) ∷ flat) ≡ (path, info) ∷ decode flat
  unfolding decode
  decode_take h = rw (h, decode)

  build_from_skip :
      (m : RouteMap)
      → before_colon key ≡ none
      → build_from m ((key, info) ∷ flat) ≡ build_from m flat
  unfolding build_from
  build_from_skip m h = rw (h, build_from)

  build_from_take :
      (m : RouteMap) {path : String}
      → before_colon key ≡ some path
      → build_from m ((key, info) ∷ flat) ≡ build_from (assign_route m path info) flat
  unfolding build_from
  build_from_take m h = rw (h, build_from)

build_from-decode :
    (flat : Dict String HandlerInfo) (m : RouteMap)
    → build_from m flat ≡ assign_routes m (decode flat)
unfolding assign_routes decode
build_from-decode [] m = unfold build_from in refl
build_from-decode ((key, info) ∷ flat) m = elim (Option-cases (before_colon key)) [
  | inl plain ↦
      rw (build_from_skip key info flat m plain, decode_skip key info flat plain)
        (build_from-decode flat m)
  | inr (path, found) ↦
      rw (build_from_take key info flat m found, decode_take key info flat found)
        (build_from-decode flat (assign_route m path info))
]

-- an item in front of both
decode-keep :
    (key : String) (info : HandlerInfo) (f g : Dict String HandlerInfo)
    → Reordering (decode f) (decode g)
    → Reordering (decode ((key, info) ∷ f)) (decode ((key, info) ∷ g))
decode-keep key info f g r = elim (Option-cases (before_colon key)) [
  | inl plain ↦ rw (decode_skip key info f plain, decode_skip key info g plain) r
  | inr (path, found) ↦ rw (decode_take key info f found, decode_take key info g found) (keep r)
]

Reordering-refl : (rs : List Route) → Reordering rs rs
Reordering-refl [] = nil
Reordering-refl (r ∷ rs) = keep (Reordering-refl rs)

decode-swap :
    (k l : String) (i j : HandlerInfo) (f : Dict String HandlerInfo)
    → Reordering (decode ((k, i) ∷ (l, j) ∷ f)) (decode ((l, j) ∷ (k, i) ∷ f))
decode-swap k l i j f = elim (Option-cases (before_colon k)) [
  | inl plain ↦
      rw (decode_skip k i ((l, j) ∷ f) plain)
        (decode-keep l j f ((k, i) ∷ f) (rw (decode_skip k i f plain) (Reordering-refl (decode f))))
  | inr (p, found) ↦ rw (decode_take k i ((l, j) ∷ f) found) (elim (Option-cases (before_colon l)) [
    | inl plain ↦
        rw (decode_skip l j f plain, decode_skip l j ((k, i) ∷ f) plain, decode_take k i f found)
          (Reordering-refl ((p, i) ∷ decode f))
    | inr (q, found') ↦
        rw (decode_take l j f found', decode_take l j ((k, i) ∷ f) found', decode_take k i f found)
          swap
  ])
]

decode-Reordering :
    {f g : Dict String HandlerInfo} → Reordering f g → Reordering (decode f) (decode g)
decode-Reordering nil = Reordering-refl (decode [])
decode-Reordering (keep {x = (key, info)} {xs} {ys} r) =
    decode-keep key info xs ys (decode-Reordering r)
decode-Reordering (swap {x = (k, i)} {y = (l, j)} {xs}) = decode-swap k l i j xs
decode-Reordering (after r s) = after (decode-Reordering r) (decode-Reordering s)

-- two calls of `addRoute` for the same path and verb
abbrev same_route : Route → Route → Bool
same_route (q, i) (p, j) = q == p && verb_beq i.method j.method

-- no two calls for the same path and verb
abbrev Distinct : List Route → Type 0
Distinct [] = Unit
Distinct (r ∷ rs) = All (λ s. same_route r s ≡ false) rs × Distinct rs

same_route_comm : (r s : Route) → same_route r s ≡ false → same_route s r ≡ false
same_route_comm (q, i) (p, j) h =
    ground (
      arith,
      eq_iff q p,
      eq_iff p q,
      verb_beq_iff i.method j.method,
      verb_beq_iff j.method i.method,
    )

All-Reordering : (T : Route → Type 0) {rs ss : List Route} → Reordering rs ss → All T rs → All T ss
All-Reordering T nil h = h
All-Reordering T (keep r) (hx, h) = (hx, All-Reordering T r h)
All-Reordering T swap (hx, (hy, h)) = (hy, (hx, h))
All-Reordering T (after r s) h = All-Reordering T s (All-Reordering T r h)

Distinct-Reordering : {rs ss : List Route} → Reordering rs ss → Distinct rs → Distinct ss
Distinct-Reordering nil h = h
Distinct-Reordering (keep r) (hx, h) = (All-Reordering _ r hx, Distinct-Reordering r h)
Distinct-Reordering (swap {x} {y}) ((xy, hx), (hy, h)) = ((same_route_comm x y xy, hy), (hx, h))
Distinct-Reordering (after r s) h = Distinct-Reordering s (Distinct-Reordering r h)

module _ (path : String) (method : Verb) where
  lookup_route-swap :
      (x y : Route) (rs : List Route)
      → same_route x y ≡ false
      → lookup_route (x ∷ y ∷ rs) path method ≡ lookup_route (y ∷ x ∷ rs) path method
  unfolding lookup_route
  lookup_route-swap (q, i) (p, j) rs h = ground (
    arith,
    eq_iff path q,
    eq_iff path p,
    eq_iff q p,
    verb_beq_iff i.method method,
    verb_beq_iff j.method method,
    verb_beq_iff i.method j.method,
  )

  lookup_route-Reordering :
      {rs ss : List Route}
      → Reordering rs ss
      → Distinct rs
      → lookup_route rs path method ≡ lookup_route ss path method
  unfolding lookup_route
  lookup_route-Reordering nil h = refl
  lookup_route-Reordering (keep r) (hx, h) = rw (lookup_route-Reordering r h)
  lookup_route-Reordering (swap {x} {y} {xs}) ((xy, hx), h) = lookup_route-swap x y xs xy
  lookup_route-Reordering (after r s) h =
      lookup_route-Reordering r h ∙ lookup_route-Reordering s (Distinct-Reordering r h)

routes-Distinct : Distinct routes
unfolding routes
routes-Distinct = search tt

module _ (label : Verb → String) (label_injective : (a b : Verb) → label a ≡ label b → a ≡ b) where
  decode-enc_all : (rs : List Route) → All Plain rs → decode (enc_all label label_injective rs) ≡ rs
  unfolding flat_key
  decode-enc_all [] h = unfold decode in refl
  decode-enc_all ((p, i) ∷ rs) (hp, h) =
      decode_take _ i _ (before_colon-append p (label i.method) hp)
      ∙ ap (λ t. (p, i) ∷ t) (decode-enc_all rs h)

  decode-flat_routes : decode (flat_routes label) ≡ routes
  unfolding flat_routes
  decode-flat_routes =
      ap decode (
        add_routes-enc label label_injective routes [] tt routes-Plain
        ∙ ap (enc_all label label_injective) put_routes-routes)
      ∙ decode-enc_all routes routes-Plain

  -- In whatever order `BuildRouteMap` meets the entries of the flat table, the table that it builds answers
  -- every path and verb as the one built in the order of the calls of `addRoute`, where distinct verbs
  -- have distinct numbers.
  pub find_exact-reordered :
      {flat : Dict String HandlerInfo}
      → Reordering (flat_routes label) flat
      → (path : String) (method : Verb)
      → find_exact (build_from [] flat) path method ≡ find_exact (build_route_map label) path method
  find_exact-reordered {flat} r path method =
      let order : Reordering routes (decode flat) =
        rw (← decode-flat_routes) (decode-Reordering r) in
      rw (build_from-decode flat []) (
        find_exact-assign_routes (decode flat) [] path method
        ∙ nothing_more _ path method
        ∙ sym (lookup_route-Reordering path method order routes-Distinct)
        ∙ sym (find_exact-build_route_map label label_injective path method))
