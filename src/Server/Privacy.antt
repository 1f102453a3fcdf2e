-- ===== src/Server/Privacy.antt =====
-- The privacy settings of a user from one request to the next, through the whole server.
use profile_service_cpp.Prelude.{
  String, ◌==◌, eq_iff, true, Option, some, value_or, ◌≡◌, ◌≢◌, ◌∙◌, ap, refl, arith, if◌then◌else◌,
}
use profile_service_cpp.Platform.{Platform}
use profile_service_cpp.Effect.{ok, ◌>>=◌}
use profile_service_cpp.Effect.Laws.{bind-ok}
use profile_service_cpp.Http.{Verb, get, put, HttpRequest, RouteContext, json_response}
use profile_service_cpp.Models.{PrivacySettings}
use profile_service_cpp.Api.{HandlerId}
use profile_service_cpp.Handlers.PrivacyHandler.{
  settings_object, handle_get_privacy, handle_update_privacy,
}
use profile_service_cpp.Database.Executor.{QueryExecutor}
use profile_service_cpp.Repository.PrivacyRepository as Privacy
use profile_service_cpp.Repository.PrivacyRepository.{default_settings}
use profile_service_cpp.Repository.Sql.{open_executor}
use profile_service_cpp.Repository.PrivacyRepository.Laws.{
  PrivacyTable, after_get, after_update, get_lem, update_lem, after_update_stored,
  after_update_open,
}
use profile_service_cpp.Requests.Routing.{extract_path_params}
use profile_service_cpp.Requests.Serving.{served}
use profile_service_cpp.Prelude.Text.{found_at_start, substr}
use profile_service_cpp.Requests.Paths.{with_param, fresh, handle-at}
use profile_service_cpp.Requests.RequestManager.{extract_user_id}
use profile_service_cpp.Server.QueryManager.{initialize_storage}
use profile_service_cpp.Server.ServerImpl.{Endpoint, handle}
use profile_service_cpp.Server.ServerImpl.Laws.{ready}

serves_writing : served put "/me/privacy" ≡ some HandlerId.update_privacy
unfolding served
serves_writing = refl

serves_reading : served get "/me/privacy" ≡ some HandlerId.get_privacy
unfolding served
serves_reading = refl

-- the context of a request to the settings: the last rule for parameters takes the path for a user's
abbrev context_of : String → RouteContext
context_of u = with_param u "user_id" "me/privacy"

extract_path_params_lem : (u : String) → extract_path_params "/me/privacy" (fresh u) ≡ context_of u
unfolding extract_path_params found_at_start substr
extract_path_params_lem u = refl

module _ (P : Platform) (x : QueryExecutor) (q : HttpRequest) (c : RouteContext) where
  handle_update_privacy_done :
      {j : P.Json} {p l a : String} (w : P.World) {w' : P.World}
      → P.parse q.body ≡ ok j
      → P.value_string j "profile_visibility" "everyone" ≡ ok p
      → P.value_string j "last_seen_visibility" "everyone" ≡ ok l
      → P.value_string j "avatar_visibility" "everyone" ≡ ok a
      → Privacy.update P x
          (record {
            user_id = c.user_id;
            profile_visibility = p;
            last_seen_visibility = l;
            avatar_visibility = a;
          })
          w
        ≡ (ok tt, w')
      → handle_update_privacy P x q c w ≡ (ok (json_response 204 q.version ""), w')
  unfolding handle_update_privacy
  handle_update_privacy_done w h1 h2 h3 h4 h5 = ground arith

  handle_get_privacy_done :
      {s : PrivacySettings} {body : String} (w : P.World) {w' : P.World}
      → Privacy.get P x c.user_id w ≡ (ok s, w')
      → P.dump (settings_object P x s) ≡ ok body
      → handle_get_privacy P x q c w ≡ (ok (json_response 200 q.version body), w')
  unfolding handle_get_privacy
  handle_get_privacy_done w h1 h2 = ground arith

own_settings :
    (s : PrivacySettings) (o : Option PrivacySettings) (d : PrivacySettings)
    → value_or (if s.user_id == s.user_id then some s else o) d ≡ s
own_settings s o d = ground (arith, eq_iff s.user_id s.user_id)

-- The JSON object with these four fields.
abbrev pub settings_json : (P : Platform) → String → String → String → String → P.Json
settings_json P u p l a =
    P.assign
      (P.assign
        (P.assign (P.assign P.null "user_id" (P.of_string u)) "profile_visibility" (P.of_string p))
        "last_seen_visibility" (P.of_string l))
      "avatar_visibility" (P.of_string a)

module _ (P : Platform) (table : PrivacyTable P) (label : Verb → String)
    (label_injective : (a b : Verb) → label a ≡ label b → a ≡ b) (endpoint : Endpoint) where
  abbrev executor : QueryExecutor
  executor = open_executor P table.server

  put_privacy :
      (q : HttpRequest) (u : String)
      → q.method ≡ put
      → q.target ≡ "/me/privacy"
      → extract_user_id q ≡ u
      → u ≢ ""
      → handle P (ready P label endpoint) q ≡ handle_update_privacy P executor q (context_of u)
  unfolding handle
  put_privacy q u m t by_u known =
      handle-at P executor (initialize_storage P) label label_injective q put "/me/privacy" u
        HandlerId.update_privacy serves_writing m t by_u known
      ∙ ap (handle_update_privacy P executor q) (extract_path_params_lem u)

  get_privacy :
      (q : HttpRequest) (u : String)
      → q.method ≡ get
      → q.target ≡ "/me/privacy"
      → extract_user_id q ≡ u
      → u ≢ ""
      → handle P (ready P label endpoint) q ≡ handle_get_privacy P executor q (context_of u)
  unfolding handle
  get_privacy q u m t by_u known =
      handle-at P executor (initialize_storage P) label label_injective q get "/me/privacy" u
        HandlerId.get_privacy serves_reading m t by_u known
      ∙ ap (handle_get_privacy P executor q) (extract_path_params_lem u)

  -- Over an open connection to the table of settings, the server as `main` starts it, a `PUT /me/privacy`
  -- of a user with a body that can be read, whose settings fit the table, is answered with 204, and a
  -- `GET /me/privacy` of the same user after it with 200 and the JSON object of the user and the three
  -- settings of that body, with "everyone" where it has none, where distinct verbs have distinct texts and
  -- the settings have a JSON text.
  pub put-get_privacy :
      (q r : HttpRequest) (u : String) (j : P.Json) (p l a body : String) (w : P.World)
      → q.method ≡ put
      → r.method ≡ get
      → q.target ≡ "/me/privacy"
      → r.target ≡ "/me/privacy"
      → extract_user_id q ≡ u
      → extract_user_id r ≡ u
      → u ≢ ""
      → P.parse q.body ≡ ok j
      → P.value_string j "profile_visibility" "everyone" ≡ ok p
      → P.value_string j "last_seen_visibility" "everyone" ≡ ok l
      → P.value_string j "avatar_visibility" "everyone" ≡ ok a
      → P.dump (settings_json P u p l a) ≡ ok body
      → P.is_open w ≡ true
      → table.fits w (record {
        user_id = u;
        profile_visibility = p;
        last_seen_visibility = l;
        avatar_visibility = a;
      })
        ≡ true
      → ((handle P (ready P label endpoint) q w).0 ≡ ok (json_response 204 q.version ""))
        × (((handle P (ready P label endpoint) q >>= λ _. handle P (ready P label endpoint) r) w).0
            ≡ ok (json_response 200 r.version body))
  put-get_privacy q r u j p l a body w qm rm qt rt qu ru known h1 h2 h3 h4 h5 opened fitting =
      let s : PrivacySettings = record {
        user_id = u;
        profile_visibility = p;
        last_seen_visibility = l;
        avatar_visibility = a;
      } in
      let stored =
        ap (λ f. f w) (put_privacy q u qm qt qu known)
        ∙ handle_update_privacy_done P executor q (context_of u) w h1 h2 h3 h4
            (update_lem P table s w opened fitting) in
      let w1 = after_update P table s w in
      let read =
        ap (λ f. f w1) (get_privacy r u rm rt ru known)
        ∙ handle_get_privacy_done P executor r (context_of u) w1
            (get_lem P table u w1 (after_update_open P table s w opened)
              ∙ ap (λ x. (ok x, after_get P table u w1))
                  (ap (λ o. value_or o (default_settings u)) (after_update_stored P table s u w)
                    ∙ own_settings s (table.stored w u) (default_settings u)))
            h5 in
      (
        ap (λ x. x.0) stored,
        ap (λ x. x.0)
            (bind-ok (handle P (ready P label endpoint) q)
                (λ _. handle P (ready P label endpoint) r) w stored
              ∙ read),
      )
