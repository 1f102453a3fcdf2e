-- ===== src/Requests/Serving.antt =====
-- Which handler serves which request, by verb: an account of the routes that goes by neither the table
-- nor the order of the tests.
use profile_service_cpp.Prelude.{
  ℕ, String, ◌<>◌, ◌==◌, eq_iff, starts_with, Bool, not, ◌&&◌, true, false, Option, none, some, ◌≡◌,
  ◌∙◌, refl, ap, arith, if◌then◌else◌,
}
use profile_service_cpp.Prelude.Text.{found_from}
use profile_service_cpp.Prelude.Text.Laws.{is_other, starts_with-ne, found_from-prefix}
use profile_service_cpp.Http.{Verb, get, post, put, patch, delete_, options, other}
use profile_service_cpp.Api.{HandlerId, HandlerInfo, routes}
use profile_service_cpp.Api.RouteMap.{build_route_map}
use profile_service_cpp.Api.Table.{lookup_route, find_exact-build_route_map}
use profile_service_cpp.Requests.Routing.{is_user_path, resolve_route}

-- A path that is one segment, other than `/me`.
unfoldable pub names_user : String → Bool
unfolding found_from
names_user t = starts_with t "/" && not (found_from t "/" 1) && not (t == "/me")

abbrev served_get : String → Option HandlerId
served_get t =
    if t == "/notifications"
    then some HandlerId.get_notifications
    else if t == "/favorites"
    then some HandlerId.get_favorites
    else if t == "/contacts"
    then some HandlerId.get_contacts
    else if t == "/me/privacy"
    then some HandlerId.get_privacy
    else if t == "/me"
    then some HandlerId.get_my_profile
    else if starts_with t "/notifications/"
    then some HandlerId.get_chat_notifications
    else if names_user t
    then some HandlerId.get_profile_by_id
    else none

abbrev served_post : String → Option HandlerId
served_post t =
    if t == "/internal/profiles"
    then some HandlerId.create_profile
    else if t == "/me/avatar"
    then some HandlerId.upload_avatar
    else if t == "/contacts"
    then some HandlerId.add_contact
    else if starts_with t "/favorites/"
    then some HandlerId.add_favorite
    else none

abbrev served_put : String → Option HandlerId
served_put t =
    if t == "/me/privacy"
    then some HandlerId.update_privacy
    else if t == "/notifications"
    then some HandlerId.update_notifications
    else if starts_with t "/notifications/"
    then some HandlerId.update_chat_notifications
    else none

abbrev served_delete : String → Option HandlerId
served_delete t =
    if t == "/me/avatar"
    then some HandlerId.delete_avatar
    else if starts_with t "/contacts/"
    then some HandlerId.delete_contact
    else if starts_with t "/favorites/"
    then some HandlerId.remove_favorite
    else none

unfoldable pub served : Verb → String → Option HandlerId
served get t = served_get t
served post t = served_post t
served put t = served_put t
served patch t = if t == "/me" then some HandlerId.update_profile else none
served delete_ t = served_delete t
served _ t = none

abbrev pub id_of : Option HandlerInfo → Option HandlerId
id_of none = none
id_of (some info) = some info.id

-- `resolve_route` over the calls of `addRoute`
resolve : String → Verb → Option HandlerInfo
resolve target method = elim (lookup_route routes target method) [
  | some info ↦ some info
  | none ↦
      if starts_with target "/contacts/"
      then lookup_route routes "/contacts/{contact_id}" method
      else if starts_with target "/favorites/"
      then lookup_route routes "/favorites/{chat_id}" method
      else if starts_with target "/notifications/"
      then lookup_route routes "/notifications/{chat_id}" method
      else if is_user_path target
      then lookup_route routes "/{user_id}" method
      else none
]

-- At most one of the three prefixes fits.
module _ (t : String) where
  pub contacts_only :
      starts_with t "/contacts/" ≡ true
      → (starts_with t "/favorites/" ≡ false) × (starts_with t "/notifications/" ≡ false)
  contacts_only h = (
    starts_with-ne t "/" "c" "ontacts/" "/" "f" "avorites/" h (omega arith),
    starts_with-ne t "/" "c" "ontacts/" "/" "n" "otifications/" h (omega arith),
  )

  pub favorites_only :
      starts_with t "/favorites/" ≡ true
      → (starts_with t "/contacts/" ≡ false) × (starts_with t "/notifications/" ≡ false)
  favorites_only h = (
    starts_with-ne t "/" "f" "avorites/" "/" "c" "ontacts/" h (omega arith),
    starts_with-ne t "/" "f" "avorites/" "/" "n" "otifications/" h (omega arith),
  )

-- a text that is compared with another starts as that one does
pub starts_as : (t u p : String) → (t == u) ≡ true → starts_with t p ≡ starts_with u p
starts_as t u p h = ap (λ v. starts_with v p) ((eq_iff t u).0 h)

resolve-put : (t : String) → id_of (resolve t put) ≡ served put t
unfolding resolve lookup_route routes served
resolve-put t = ground (
  arith,
  starts_as t "/notifications/{chat_id}" "/notifications/",
  is_other t "/notifications/{chat_id}" "/notifications" refl,
  is_other t "/notifications/{chat_id}" "/me/privacy" refl,
  is_other t "/notifications" "/me/privacy" refl,
  contacts_only t,
  favorites_only t,
)

resolve-patch : (t : String) → id_of (resolve t patch) ≡ served patch t
unfolding resolve lookup_route routes served
resolve-patch t = ground arith

resolve-delete : (t : String) → id_of (resolve t delete_) ≡ served delete_ t
unfolding resolve lookup_route routes served
resolve-delete t = ground (
  arith,
  starts_as t "/contacts/{contact_id}" "/contacts/",
  starts_as t "/favorites/{chat_id}" "/favorites/",
  is_other t "/favorites/{chat_id}" "/me/avatar" refl,
  is_other t "/contacts/{contact_id}" "/me/avatar" refl,
  contacts_only t,
  favorites_only t,
)

resolve-post : (t : String) → id_of (resolve t post) ≡ served post t
unfolding resolve lookup_route routes served
resolve-post t = ground (
  arith,
  starts_as t "/favorites/{chat_id}" "/favorites/",
  is_other t "/favorites/{chat_id}" "/internal/profiles" refl,
  is_other t "/favorites/{chat_id}" "/me/avatar" refl,
  is_other t "/favorites/{chat_id}" "/contacts" refl,
  is_other t "/contacts" "/internal/profiles" refl,
  is_other t "/contacts" "/me/avatar" refl,
  is_other t "/me/avatar" "/internal/profiles" refl,
  contacts_only t,
  favorites_only t,
)

-- A path with a second slash names no user.
not_user_path : (p t : String) → starts_with t ("/" <> (p <> "/")) ≡ true → is_user_path t ≡ false
unfolding is_user_path
not_user_path p t h = ground (arith, found_from-prefix p t h)

user_path_as : (t : String) → (t == "/{user_id}") ≡ true → is_user_path t ≡ true
unfolding is_user_path
user_path_as t h = ap is_user_path ((eq_iff t "/{user_id}").0 h)

is_user_path-eq : (t : String) → is_user_path t ≡ names_user t
unfolding is_user_path names_user
is_user_path-eq t =
    let avatar : (t == "/me/avatar") ≡ true → found_from t "/" 1 ≡ true =
      λ h. ap (λ u. found_from u "/" 1) ((eq_iff t "/me/avatar").0 h) in
    let privacy : (t == "/me/privacy") ≡ true → found_from t "/" 1 ≡ true =
      λ h. ap (λ u. found_from u "/" 1) ((eq_iff t "/me/privacy").0 h) in
    ground arith

resolve-get : (t : String) → id_of (resolve t get) ≡ served get t
unfolding resolve lookup_route routes served
resolve-get t = ground (
  arith,
  starts_as t "/notifications/{chat_id}" "/notifications/",
  is_other t "/notifications/{chat_id}" "/me" refl,
  is_other t "/notifications/{chat_id}" "/me/privacy" refl,
  is_other t "/notifications/{chat_id}" "/contacts" refl,
  is_other t "/notifications/{chat_id}" "/favorites" refl,
  is_other t "/notifications/{chat_id}" "/notifications" refl,
  is_other t "/{user_id}" "/me" refl,
  starts_as t "/{user_id}" "/notifications/",
  user_path_as t,
  is_user_path-eq t,
  contacts_only t,
  favorites_only t,
  not_user_path "contacts" t,
  not_user_path "favorites" t,
)

resolve-other : (t : String) (n : ℕ) → id_of (resolve t (other n)) ≡ none
unfolding resolve lookup_route routes
resolve-other t n = ground arith

resolve-options : (t : String) → id_of (resolve t options) ≡ none
unfolding resolve lookup_route routes
resolve-options t = ground arith

resolve-served : (t : String) (method : Verb) → id_of (resolve t method) ≡ served method t
unfolding served
resolve-served t get = resolve-get t
resolve-served t post = resolve-post t
resolve-served t put = resolve-put t
resolve-served t patch = resolve-patch t
resolve-served t delete_ = resolve-delete t
resolve-served t options = resolve-options t
resolve-served t (other n) = resolve-other t n

module _ (label : Verb → String) (label_injective : (a b : Verb) → label a ≡ label b → a ≡ b) where
  resolve_route-eq :
      (t : String) (method : Verb)
      → resolve_route (build_route_map label) t method ≡ resolve t method
  unfolding resolve_route resolve
  resolve_route-eq t method = ground (
    arith,
    find_exact-build_route_map label label_injective t method,
    find_exact-build_route_map label label_injective "/contacts/{contact_id}" method,
    find_exact-build_route_map label label_injective "/favorites/{chat_id}" method,
    find_exact-build_route_map label label_injective "/notifications/{chat_id}" method,
    find_exact-build_route_map label label_injective "/{user_id}" method,
  )

  -- Where distinct verbs have distinct numbers, `ResolveRoute` over the built table finds, for every
  -- target and verb, the handler that the account by verb names, and nothing where that names none.
  pub resolve_route-served :
      (t : String) (method : Verb)
      → id_of (resolve_route (build_route_map label) t method) ≡ served method t
  resolve_route-served t method = ap id_of (resolve_route-eq t method) ∙ resolve-served t method
