-- ===== src/Repository/ProfileRepository/Runs.antt =====
-- What the operations of src/repository/profile_repository.cpp do over the table `profiles`.
use profile_service_cpp.Prelude.{
  false, refl, String, ◌==◌, eq_iff, true, Option, none, some, List, [], ◌∷◌, value_or, ◌≡◌, ◌∙◌,
  ap, arith, if◌then◌else◌,
}
use profile_service_cpp.Platform.{Platform}
use profile_service_cpp.Effect.{ok, raise}
use profile_service_cpp.Effect.Laws.{bind-ok, try_catch-ok}
use profile_service_cpp.Models.{Profile}
use profile_service_cpp.Mappers.{map_profile}
use profile_service_cpp.Database.Value.{DbValue, string_value, convert_value}
use profile_service_cpp.Database.ResultSet.{get_row_at, empty}
use profile_service_cpp.Database.Executor.{execute_select, execute_modify}
use profile_service_cpp.Repository.Rows.{first_row}
use profile_service_cpp.Repository.Sql.{
  get_string_value-text, get_string_value-optional, get_string_value-optional_long, open_executor,
  execute_select-runs, execute_modify-runs,
}
use profile_service_cpp.Repository.ProfileRepository.{
  create_query, get_by_id_query, update_query, create, get_by_id, update,
}
use profile_service_cpp.Repository.ProfileRepository.Table.{
  ProfileTable, StoredProfile, blank, set_texts,
}

module _ (P : Platform) (table : ProfileTable P) where
  open table use {server, stored}

  -- the profile that a row stands for, read from the world on
  abbrev pub profile_of : String → StoredProfile → P.World → Profile P
  profile_of u r w = record {
    user_id = u;
    first_name = r.first_name;
    last_name = r.last_name;
    username = r.username;
    bio = r.bio;
    avatar_url = r.avatar_url;
    last_seen_at = none;
    created_at = table.time w;
    updated_at = table.time (table.ticked w);
  }

  -- the columns of a profile
  abbrev pub columns_of : Profile P → StoredProfile
  columns_of p = record {
    first_name = p.first_name;
    last_name = p.last_name;
    username = p.username;
    bio = p.bio;
    avatar_url = p.avatar_url;
  }

  map_row :
      (u : String) (r : StoredProfile) (w : P.World)
      → map_profile P (some (table.row u r)) w
        ≡ (ok (profile_of u r w), table.ticked (table.ticked w))
  unfolding map_profile
  map_row u r w =
      let (c1, c2, c3, c4, c5, c6) = table.columns u r in
      ground (
        arith,
        get_string_value-text P server (table.row u r) "user_id" u c1,
        get_string_value-optional P server (table.row u r) "first_name" r.first_name c2,
        get_string_value-optional P server (table.row u r) "last_name" r.last_name c3,
        get_string_value-optional P server (table.row u r) "username" r.username c4,
        get_string_value-optional_long P server (table.row u r) "bio" r.bio c5,
        get_string_value-optional_long P server (table.row u r) "avatar_url" r.avatar_url c6,
        table.clock_law w,
        table.clock_law (table.ticked w),
      )

  abbrev pub after_get : String → P.World → P.World
  after_get u w = server.committed (table.selected u (server.begun w))

  pub get_lem :
      (u : String) (r : StoredProfile) (w : P.World)
      → P.is_open w ≡ true
      → stored w u ≡ some r
      → get_by_id P (open_executor P server) u w
        ≡ (ok (profile_of u r (after_get u w)), table.ticked (table.ticked (after_get u w)))
  unfolding get_by_id convert_value first_row get_row_at empty
  get_lem u r w h found =
      let begun = server.begun_open w h in
      let there : stored (server.begun w) u ≡ some r = table.begun_stored w u ∙ found in
      bind-ok (execute_select P (open_executor P server) get_by_id_query (string_value u ∷ []))
        (λ result. first_row P (map_profile P) result (raise "Profile not found")) w
        (execute_select-runs P server get_by_id_query (string_value u) [] (table.row u r ∷ []) w
          (table.selected u (server.begun w)) h
          (table.select_law (server.begun w) u begun
            ∙ ap
                (λ o. (
                  ok (elim o as (λ _. List P.Row) [ none ↦ [] | some s ↦ table.row u s ∷ [] ]),
                  table.selected u (server.begun w),
                ))
                there)
          (table.selected_open (server.begun w) u begun))
      ∙ map_row u r (after_get u w)

  -- what `GetByID` of one user leaves of the rows
  pub get_stored :
      (u v : String) (w : P.World)
      → stored (table.ticked (table.ticked (after_get u w))) v ≡ stored w v
  get_stored u v w =
      table.ticked_stored _ v
      ∙ table.ticked_stored (after_get u w) v
      ∙ table.committed_stored _ v
      ∙ table.selected_stored (server.begun w) u v
      ∙ table.begun_stored w v

  pub get_open :
      (u : String) (w : P.World)
      → P.is_open w ≡ true
      → P.is_open (table.ticked (table.ticked (after_get u w))) ≡ true
  get_open u w h = table.ticked_open _ (
      table.ticked_open _
        (server.committed_open _ (table.selected_open _ u (server.begun_open w h))))

  pub get_fits :
      (u v f l n b : String) (w : P.World)
      → table.fits (table.ticked (table.ticked (after_get u w))) v f l n b ≡ table.fits w v f l n b
  get_fits u v f l n b w =
      table.ticked_fits _ v f l n b
      ∙ table.ticked_fits (after_get u w) v f l n b
      ∙ table.committed_fits _ v f l n b
      ∙ table.selected_fits (server.begun w) u v f l n b
      ∙ table.begun_fits w v f l n b

  abbrev pub after_create : String → P.World → P.World
  after_create u w = server.committed (table.created u (server.begun w))

  pub create_lem :
      (u : String) (w : P.World)
      → P.is_open w ≡ true
      → table.fits_id u ≡ true
      → create P (open_executor P server) u w ≡ (
        ok (profile_of u (value_or (stored w u) blank) (after_create u w)),
        table.ticked (table.ticked (after_create u w)),
      )
  unfolding create convert_value first_row get_row_at empty
  create_lem u w h fitting =
      let begun = server.begun_open w h in
      let r = value_or (stored (server.begun w) u) blank in
      bind-ok (execute_select P (open_executor P server) create_query (string_value u ∷ []))
        (λ result. first_row P (map_profile P) result (raise "Failed to create profile")) w
        (execute_select-runs P server create_query (string_value u) [] (table.row u r ∷ []) w
          (table.created u (server.begun w)) h (table.create_law (server.begun w) u begun fitting)
          (table.created_open (server.begun w) u begun))
      ∙ map_row u r (after_create u w)
      ∙ ap
          (λ o. (
            ok (profile_of u (value_or o blank) (after_create u w)),
            table.ticked (table.ticked (after_create u w)),
          ))
          (table.begun_stored w u)

  pub ticked_twice_stored :
      (w : P.World) (u : String) → stored (table.ticked (table.ticked w)) u ≡ stored w u
  ticked_twice_stored w u = table.ticked_stored (table.ticked w) u ∙ table.ticked_stored w u

  pub same_id : (u : String) (a b : Option StoredProfile) → (if u == u then a else b) ≡ a
  same_id u a b = ground (arith, eq_iff u u)

  -- the texts that an update of a profile sends
  abbrev pub sent_texts : Profile P → StoredProfile → StoredProfile
  sent_texts p =
      set_texts (value_or p.first_name "") (value_or p.last_name "") (value_or p.username "")
        (value_or p.bio "")

  abbrev pub after_update : Profile P → P.World → P.World
  after_update p w = server.committed (
      table.updated p.user_id (value_or p.first_name "") (value_or p.last_name "")
        (value_or p.username "") (value_or p.bio "") (server.begun w))

  abbrev pub Fits : P.World → Profile P → Type 0
  Fits w p =
      table.fits w p.user_id (value_or p.first_name "") (value_or p.last_name "")
        (value_or p.username "") (value_or p.bio "")
      ≡ true

  -- the parameters of the update behind the first one
  abbrev other_params : Profile P → List (DbValue P)
  other_params p =
      string_value (value_or p.last_name "")
      ∷ string_value (value_or p.username "")
      ∷ string_value (value_or p.bio "")
      ∷ string_value p.user_id
      ∷ []

  pub update_lem :
      (p : Profile P) (w : P.World)
      → P.is_open w ≡ true
      → Fits w p
      → update P (open_executor P server) p w ≡ (ok tt, after_update p w)
  unfolding update convert_value
  update_lem p w h fitting =
      let begun = server.begun_open w h in
      try_catch-ok
        (execute_modify P (open_executor P server) update_query
          (string_value (value_or p.first_name "") ∷ other_params p))
        (λ _. raise "username already taken") w
        (execute_modify-runs P server update_query (string_value (value_or p.first_name ""))
          (other_params p) [] w _ h
          (table.update_law (server.begun w) p.user_id _ _ _ _ begun
            (table.begun_fits w p.user_id _ _ _ _ ∙ fitting))
          (table.updated_open (server.begun w) p.user_id _ _ _ _ begun))

  pub after_update_open :
      (p : Profile P) (w : P.World) → P.is_open w ≡ true → P.is_open (after_update p w) ≡ true
  after_update_open p w h =
      server.committed_open _
        (table.updated_open (server.begun w) p.user_id _ _ _ _ (server.begun_open w h))

  pub after_update_stored :
      (p : Profile P) (r : StoredProfile) (w : P.World)
      → stored w p.user_id ≡ some r
      → stored (after_update p w) p.user_id ≡ some (sent_texts p r)
  after_update_stored p r w found =
      table.committed_stored _ p.user_id
      ∙ table.updated_stored (server.begun w) p.user_id _ _ _ _ p.user_id
      ∙ same_id p.user_id _ _
      ∙ ap
          (λ o. elim o as (λ _. Option StoredProfile) [
            | none ↦ none
            | some s ↦ some (sent_texts p s)
          ])
          (table.begun_stored w p.user_id ∙ found)

  pub after_update_other :
      (p : Profile P) (u : String) (w : P.World)
      → (p.user_id == u) ≡ false
      → stored (after_update p w) u ≡ stored w u
  after_update_other p u w differ =
      table.committed_stored _ u
      ∙ table.updated_stored (server.begun w) p.user_id _ _ _ _ u
      ∙ rw differ refl
      ∙ table.begun_stored w u
