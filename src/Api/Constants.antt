-- ===== src/Api/Constants.antt =====
-- include/profile_service/api_routes.hpp: the routes as constants, beside the table of src/api_spec.cpp.
use profile_service_cpp.Prelude.{
  String, ◌==◌, List, [], ◌∷◌, ◌++◌, Option, none, some, Bool, true, false, not, ◌&&◌, ◌||◌, ◌≡◌,
  refl, arith,
}
use profile_service_cpp.Prelude.Text.Laws.{is_other}
use profile_service_cpp.Http.{Verb, get, post, put, patch, delete_, options, other, verb_beq}
use profile_service_cpp.Api.{HandlerInfo, routes}
use profile_service_cpp.Api.Table.{lookup_route}

unfoldable pub profile_routes : List (String × Verb)
profile_routes =
    ("/internal/profiles", post)
    ∷ ("/me", get)
    ∷ ("/me", patch)
    ∷ ("/{user_id}", get)
    ∷ ("/me/avatar", post)
    ∷ []

unfoldable pub contact_routes : List (String × Verb)
contact_routes = ("/contacts", get) ∷ ("/contacts", post) ∷ ("/contacts/{contact_id}", delete_) ∷ []

unfoldable pub privacy_routes : List (String × Verb)
privacy_routes = ("/me/privacy", get) ∷ ("/me/privacy", put) ∷ []

unfoldable pub favorite_routes : List (String × Verb)
favorite_routes =
    ("/favorites", get) ∷ ("/favorites/{chat_id}", post) ∷ ("/favorites/{chat_id}", delete_) ∷ []

unfoldable pub notification_routes : List (String × Verb)
notification_routes =
    ("/notifications", get)
    ∷ ("/notifications/{chat_id}", get)
    ∷ ("/notifications", put)
    ∷ ("/notifications/{chat_id}", put)
    ∷ []

-- whether a list of constants has a path with a verb
abbrev pub declares : List (String × Verb) → String → Verb → Bool
declares [] path method = false
declares ((p, m) ∷ constants) path method =
    declares constants path method || (verb_beq m method && path == p)

abbrev is_some : Option HandlerInfo → Bool
is_some none = false
is_some (some info) = true

abbrev pub registered : String → Verb → Bool
registered path method = is_some (lookup_route routes path method)

abbrev pub all_constants : List (String × Verb)
all_constants =
    profile_routes ++ contact_routes ++ privacy_routes ++ favorite_routes ++ notification_routes

-- The constants name exactly the paths and verbs that the table registers, but for the deletion of the
-- avatar, which only the table has.
pub declares-registered :
    (path : String) (method : Verb)
    → declares all_constants path method
      ≡ (registered path method && not (verb_beq method delete_ && path == "/me/avatar"))
unfolding profile_routes contact_routes privacy_routes favorite_routes notification_routes
    lookup_route routes
declares-registered path get = ground arith
declares-registered path post = ground arith
declares-registered path put = ground arith
declares-registered path patch = ground arith
declares-registered path delete_ = ground (
  arith,
  is_other path "/me/avatar" "/contacts/{contact_id}" refl,
  is_other path "/me/avatar" "/favorites/{chat_id}" refl,
)
declares-registered path options = ground arith
declares-registered path (other n) = ground arith
