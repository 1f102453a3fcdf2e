-- ===== src/Server/Usernames.antt =====
-- Two users without a username, one request after the other, through the whole server.
use profile_service_cpp.Prelude.{
  String, ◌==◌, eq_iff, false, true, Option, none, some, value_or, ◌≡◌, ◌≢◌, ◌∙◌, ap, refl, arith,
}
use profile_service_cpp.Platform.{Platform}
use profile_service_cpp.Effect.{ok, ◌>>=◌}
use profile_service_cpp.Effect.Laws.{bind-ok}
use profile_service_cpp.Http.{Verb, patch, HttpRequest, json_response, error_response}
use profile_service_cpp.Handlers.Common.{read_field}
use profile_service_cpp.Handlers.Profiles.{changed_profile}
use profile_service_cpp.Handlers.Usernames.{unnamed_clash}
use profile_service_cpp.Repository.ProfileRepository.Table.{StoredProfile, ProfileTable}
use profile_service_cpp.Repository.ProfileRepository.Runs.{
  profile_of, after_get, get_lem, get_open, get_stored, get_fits, update_lem, after_update,
  after_update_open, after_update_stored, after_update_other, sent_texts,
}
use profile_service_cpp.Requests.Paths.{fresh}
use profile_service_cpp.Requests.RequestManager.{extract_user_id}
use profile_service_cpp.Server.Profiles.{shown, handle_update_profile_done, patch_profile}
use profile_service_cpp.Server.QueryManager.{initialize_storage}
use profile_service_cpp.Server.ServerImpl.{Endpoint, handle}
use profile_service_cpp.Server.ServerImpl.Laws.{ready}
use profile_service_cpp.Repository.Sql.{open_executor}

module _ (P : Platform) (table : ProfileTable P) (label : Verb → String)
    (label_injective : (a b : Verb) → label a ≡ label b → a ≡ b) (endpoint : Endpoint) where
  -- Over an open connection to the table of profiles, on the server as `main` starts it, where two users have
  -- profiles without a username: the first one's `PATCH /me`, with a body that names no username and whose
  -- other texts can be read and fit the table, is answered with 200 and the changed profile, and the second
  -- one's `PATCH /me` after it, with such a body too, with 409 and "username already taken", where distinct
  -- verbs have distinct texts and the first answer has a JSON text.
  pub second_unnamed_clash :
      (q r : HttpRequest) (v u : String) (j k : P.Json) (s t : StoredProfile)
      → (f l b f' l' b' : Option String) (changed : String) (w : P.World) → q.method ≡ patch
      → r.method ≡ patch
      → q.target ≡ "/me"
      → r.target ≡ "/me"
      → extract_user_id q ≡ v
      → extract_user_id r ≡ u
      → v ≢ ""
      → u ≢ ""
      → (v == u) ≡ false
      → P.parse q.body ≡ ok j
      → P.contains j "username" ≡ false
      → read_field P j "first_name" s.first_name ≡ ok f
      → read_field P j "last_name" s.last_name ≡ ok l
      → read_field P j "bio" s.bio ≡ ok b
      → P.dump (shown P v f l none b s.avatar_url) ≡ ok changed
      → P.parse r.body ≡ ok k
      → P.contains k "username" ≡ false
      → read_field P k "first_name" t.first_name ≡ ok f'
      → read_field P k "last_name" t.last_name ≡ ok l'
      → read_field P k "bio" t.bio ≡ ok b'
      → P.is_open w ≡ true
      → table.stored w v ≡ some s
      → s.username ≡ none
      → table.stored w u ≡ some t
      → t.username ≡ none
      → table.fits w v (value_or f "") (value_or l "") "" (value_or b "") ≡ true
      → ((handle P (ready P label endpoint) q w).0 ≡ ok (json_response 200 q.version changed))
        × (((handle P (ready P label endpoint) q >>= λ _. handle P (ready P label endpoint) r) w).0
            ≡ ok (error_response 409 r.version "username already taken"))
  second_unnamed_clash q r v u j k s t f l b f' l' b' changed w qm rm qt rt qv ru v_known u_known
        differ hj nj j1 j2 j4 hc hk nk k1 k2 k4 opened found nameless other unnamed fitting =
      let w1 = table.ticked (table.ticked (after_get P table v w)) in
      let profile = changed_profile P (profile_of P table v s (after_get P table v w)) f l none b in
      let no_name : read_field P j "username" s.username ≡ ok none = ground arith in
      let answered =
        ap (λ g. g w) (patch_profile P table label label_injective endpoint q v qm qt qv v_known)
        ∙ handle_update_profile_done P (open_executor P table.server) (initialize_storage P) q
            (fresh v) w hj (get_lem P table v s w opened found) j1 j2 no_name j4
            (update_lem P table profile w1 (get_open P table v w opened)
              (get_fits P table v v _ _ _ _ w ∙ fitting))
            hc in
      let w2 = after_update P table profile w1 in
      let clash =
        unnamed_clash P table (initialize_storage P) r (fresh u) k f' l' b' v t
          (sent_texts P table profile s) w2
          (after_update_open P table profile w1 (get_open P table v w opened))
          (after_update_other P table profile u w1 differ ∙ get_stored P table v u w ∙ other)
          unnamed (after_update_stored P table profile s w1 (get_stored P table v v w ∙ found)) refl
          (ground (arith, eq_iff u v, eq_iff v u)) hk nk k1 k2 k4 in
      (
        ap (λ o. o.0) answered,
        ap (λ o. o.0)
              (bind-ok (handle P (ready P label endpoint) q)
                  (λ _. handle P (ready P label endpoint) r) w answered
                ∙ ap (λ g. g w2)
                    (patch_profile P table label label_injective endpoint r u rm rt ru u_known))
            ∙ clash,
      )
