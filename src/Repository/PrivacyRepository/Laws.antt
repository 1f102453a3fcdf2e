-- ===== src/Repository/PrivacyRepository/Laws.antt =====
-- The repository of privacy settings over a server with the table `privacy_settings`.
use profile_service_cpp.Prelude.{
  String, ◌==◌, Bool, true, false, Option, none, some, [], ◌∷◌, value_or, ◌≡◌, ◌∙◌, refl, ap, arith,
  if◌then◌else◌,
}
use profile_service_cpp.Platform.{Platform}
use profile_service_cpp.Effect.{ok, ◌>>◌, ret}
use profile_service_cpp.Effect.Laws.{bind-ok}
use profile_service_cpp.Models.{PrivacySettings}
use profile_service_cpp.Database.Value.{string_value, convert_value}
use profile_service_cpp.Database.ResultSet.{new_result_set}
use profile_service_cpp.Database.Executor.{execute_select}
use profile_service_cpp.Mappers.{map_privacy_settings}
use profile_service_cpp.Repository.Rows.{first_row}
use profile_service_cpp.Repository.Sql.{
  SqlServer, get_string_value-text, open_executor, execute_select-runs, execute_modify-runs,
}
use profile_service_cpp.Repository.PrivacyRepository.{
  get_query, update_query, default_settings, get, update,
}

-- The table, by the primary key `user_id`, and what the two statements do to it: the select gives the
-- user's row, if there is one, and the insert with its `ON CONFLICT` sets the user's row, where that fits:
-- the user has a profile, and the texts are as short as their columns.
pub record PrivacyTable (P : Platform) : Type 0 where
  pub server : SqlServer P
  pub stored : P.World → String → Option PrivacySettings
  pub row : PrivacySettings → P.Row
  pub fits : P.World → PrivacySettings → Bool
  pub selected : String → P.World → P.World
  pub written : PrivacySettings → P.World → P.World
  pub columns :
      (s : PrivacySettings)
      → (P.column (row s) "user_id" ≡ ok (server.text s.user_id))
        × (P.column (row s) "profile_visibility" ≡ ok (server.text s.profile_visibility))
        × (P.column (row s) "last_seen_visibility" ≡ ok (server.text s.last_seen_visibility))
        × (P.column (row s) "avatar_visibility" ≡ ok (server.text s.avatar_visibility))
  pub begun_stored : (w : P.World) (u : String) → stored (server.begun w) u ≡ stored w u
  pub begun_fits : (w : P.World) (s : PrivacySettings) → fits (server.begun w) s ≡ fits w s
  pub committed_stored : (w : P.World) (u : String) → stored (server.committed w) u ≡ stored w u
  pub select_law :
      (w : P.World) (u : String)
      → P.is_open w ≡ true
      → P.exec_params get_query (u ∷ []) w
        ≡ (ok (elim (stored w u) [ none ↦ [] | some s ↦ row s ∷ [] ]), selected u w)
  pub selected_open :
      (w : P.World) (u : String) → P.is_open w ≡ true → P.is_open (selected u w) ≡ true
  pub selected_stored : (w : P.World) (u v : String) → stored (selected u w) v ≡ stored w v
  pub write_law :
      (w : P.World) (s : PrivacySettings)
      → P.is_open w ≡ true
      → fits w s ≡ true
      → P.exec_params update_query
          (s.user_id ∷ s.profile_visibility ∷ s.last_seen_visibility ∷ s.avatar_visibility ∷ [])
          w
        ≡ (ok [], written s w)
  pub written_open :
      (w : P.World) (s : PrivacySettings) → P.is_open w ≡ true → P.is_open (written s w) ≡ true
  pub written_stored :
      (w : P.World) (s : PrivacySettings) (u : String)
      → stored (written s w) u ≡ (if s.user_id == u then some s else stored w u)

value_or_if :
    (b : Bool) (s : PrivacySettings) (o : Option PrivacySettings) (d : PrivacySettings)
    → ok (value_or (if b then some s else o) d) ≡ ok (if b then s else value_or o d)
value_or_if true s o d = refl
value_or_if false s o d = refl

module _ (P : Platform) (table : PrivacyTable P) where
  open table use {server, stored}

  -- what the table says of a user, with the defaults where it says nothing
  abbrev pub settings_of : P.World → String → PrivacySettings
  settings_of w u = value_or (stored w u) (default_settings u)

  -- the world after the two statements, each in its own work
  abbrev pub after_get : String → P.World → P.World
  after_get u w = server.committed (table.selected u (server.begun w))

  abbrev pub after_update : PrivacySettings → P.World → P.World
  after_update s w = server.committed (table.written s (server.begun w))

  map_row :
      (s : PrivacySettings) (w : P.World)
      → map_privacy_settings P (some (table.row s)) w ≡ (ok s, w)
  unfolding map_privacy_settings
  map_row s w =
      let (c1, c2, c3, c4) = table.columns s in
      ground (
        arith,
        get_string_value-text P server (table.row s) "user_id" s.user_id c1,
        get_string_value-text P server (table.row s) "profile_visibility" s.profile_visibility c2,
        get_string_value-text P server (table.row s) "last_seen_visibility" s.last_seen_visibility
            c3,
        get_string_value-text P server (table.row s) "avatar_visibility" s.avatar_visibility c4,
      )

  first :
      (u : String) (o : Option PrivacySettings) (w : P.World)
      → first_row P
          (map_privacy_settings P)
          (new_result_set P (elim o [ none ↦ [] | some s ↦ table.row s ∷ [] ]))
          (ret (default_settings u))
          w
        ≡ (ok (value_or o (default_settings u)), w)
  unfolding first_row
  first u none w = refl
  first u (some s) w = map_row s w

  pub get_lem :
      (u : String) (w : P.World)
      → P.is_open w ≡ true
      → get P (open_executor P server) u w ≡ (ok (settings_of w u), after_get u w)
  unfolding get convert_value
  get_lem u w h =
      let begun = server.begun_open w h in
      let ran = table.select_law (server.begun w) u begun in
      let still = table.selected_open (server.begun w) u begun in
      bind-ok (execute_select P (open_executor P server) get_query (string_value u ∷ []))
        (λ result. first_row P (map_privacy_settings P) result (ret (default_settings u))) w
        (execute_select-runs P server get_query (string_value u) []
          (elim (stored (server.begun w) u) [ none ↦ [] | some s ↦ table.row s ∷ [] ]) w
          (table.selected u (server.begun w)) h ran still)
      ∙ first u (stored (server.begun w) u) (after_get u w)
      ∙ ap (λ o. (ok (value_or o (default_settings u)), after_get u w)) (table.begun_stored w u)

  pub update_lem :
      (s : PrivacySettings) (w : P.World)
      → P.is_open w ≡ true
      → table.fits w s ≡ true
      → update P (open_executor P server) s w ≡ (ok tt, after_update s w)
  unfolding update convert_value
  update_lem s w h fitting =
      let begun = server.begun_open w h in
      execute_modify-runs P server update_query _ _ [] w (table.written s (server.begun w)) h
        (table.write_law (server.begun w) s begun (table.begun_fits w s ∙ fitting))
        (table.written_open (server.begun w) s begun)

  after_get_stored : (u v : String) (w : P.World) → stored (after_get u w) v ≡ stored w v
  after_get_stored u v w =
      table.committed_stored (table.selected u (server.begun w)) v
      ∙ table.selected_stored (server.begun w) u v
      ∙ table.begun_stored w v

  pub after_update_stored :
      (s : PrivacySettings) (v : String) (w : P.World)
      → stored (after_update s w) v ≡ (if s.user_id == v then some s else stored w v)
  after_update_stored s v w =
      table.committed_stored (table.written s (server.begun w)) v
      ∙ table.written_stored (server.begun w) s v
      ∙ ap (λ o. if s.user_id == v then some s else o) (table.begun_stored w v)

  pub after_update_open :
      (s : PrivacySettings) (w : P.World) → P.is_open w ≡ true → P.is_open (after_update s w) ≡ true
  after_update_open s w h =
      server.committed_open (table.written s (server.begun w))
        (table.written_open (server.begun w) s (server.begun_open w h))

  -- Over an open connection to such a table, `Get` yields the user's settings, with the defaults where
  -- there are none, and leaves every user's settings as they were.
  pub get-settings_of :
      (u v : String) (w : P.World)
      → P.is_open w ≡ true
      → ((get P (open_executor P server) u w).0 ≡ ok (settings_of w u))
        × (settings_of (get P (open_executor P server) u w).1 v ≡ settings_of w v)
  get-settings_of u v w h = (
    ap (λ p. p.0) (get_lem u w h),
    ap (λ p. settings_of p.1 v) (get_lem u w h)
        ∙ ap (λ o. value_or o (default_settings v)) (after_get_stored u v w),
  )

  -- Over an open connection to such a table, `Update` of settings that fit it succeeds, and `Get` after it yields the updated
  -- settings for their user, and for every other user what it yielded before.
  pub update-get :
      (s : PrivacySettings) (u : String) (w : P.World)
      → P.is_open w ≡ true
      → table.fits w s ≡ true
      → ((update P (open_executor P server) s >> get P (open_executor P server) u) w).0
        ≡ ok (if s.user_id == u then s else settings_of w u)
  update-get s u w h fitting =
      ap (λ p. p.0)
        (bind-ok (update P (open_executor P server) s) (λ _. get P (open_executor P server) u) w
          (update_lem s w h fitting))
      ∙ (get-settings_of u u (after_update s w) (after_update_open s w h)).0
      ∙ ap (λ o. ok (value_or o (default_settings u))) (after_update_stored s u w)
      ∙ value_or_if (s.user_id == u) s (stored w u) (default_settings u)
