-- ===== src/Repository/ProfileRepository/Laws.antt =====
-- The repository of profiles over a server with the table `profiles`.
use profile_service_cpp.Prelude.{String, true, some, value_or, ◌≡◌, ◌∙◌, refl, ap}
use profile_service_cpp.Platform.{Platform}
use profile_service_cpp.Effect.{ok, ◌>>=◌, ◌>>◌}
use profile_service_cpp.Effect.Laws.{bind-ok}
use profile_service_cpp.Models.{Profile}
use profile_service_cpp.Repository.Sql.{open_executor}
use profile_service_cpp.Repository.ProfileRepository.{create, get_by_id, update}
use profile_service_cpp.Repository.ProfileRepository.Table.{ProfileTable, StoredProfile, blank}
use profile_service_cpp.Repository.ProfileRepository.Runs.{
  profile_of, columns_of, get_lem, create_lem, update_lem, after_get, after_create, after_update,
  sent_texts, Fits, ticked_twice_stored, same_id, after_update_open, after_update_stored,
}

module _ (P : Platform) (table : ProfileTable P) where
  open table use {server, stored}

  -- Over an open connection to such a table, `Create` of an id that fits its column succeeds, and `GetByID`
  -- after it yields the columns that the user had, or none where the user was new: an existing profile is
  -- not changed.
  pub create-get_by_id :
      (u : String) (w : P.World)
      → P.is_open w ≡ true
      → table.fits_id u ≡ true
      → (p : Profile P) × (((create P (open_executor P server) u >>= λ _.
              get_by_id P (open_executor P server) u)
            w).0
          ≡ ok p)
        × (p.user_id ≡ u)
        × (columns_of P table p ≡ value_or (stored w u) blank)
  create-get_by_id u w h fitting =
      let begun = server.begun_open w h in
      let w1 = table.ticked (table.ticked (after_create P table u w)) in
      let r = value_or (stored w u) blank in
      let opened : P.is_open w1 ≡ true = table.ticked_open _ (
        table.ticked_open _
          (server.committed_open _ (table.created_open (server.begun w) u begun))) in
      let there : stored w1 u ≡ some r =
        ticked_twice_stored P table (after_create P table u w) u
        ∙ table.committed_stored (table.created u (server.begun w)) u
        ∙ table.created_stored (server.begun w) u u
        ∙ same_id P table u _ _
        ∙ ap (λ o. some (value_or o blank)) (table.begun_stored w u) in
      (
        profile_of P table u r (after_get P table u w1),
        ap (λ t. t.0)
            (bind-ok (create P (open_executor P server) u)
                (λ _. get_by_id P (open_executor P server) u) w (create_lem P table u w h fitting)
              ∙ get_lem P table u r w1 opened there),
        refl,
        refl,
      )

  -- Over an open connection to such a table, `Update` of a profile that is there and fits succeeds, and
  -- `GetByID` after it yields the four texts, with the empty text for an absent one, and the avatar that was
  -- stored.
  pub update-get_by_id :
      (p : Profile P) (r : StoredProfile) (w : P.World)
      → P.is_open w ≡ true
      → stored w p.user_id ≡ some r
      → Fits P table w p
      → (q : Profile P) × (((update P (open_executor P server) p
              >> get_by_id P (open_executor P server) p.user_id)
            w).0
          ≡ ok q)
        × (q.user_id ≡ p.user_id)
        × (columns_of P table q ≡ sent_texts P table p r)
  update-get_by_id p r w h found fitting =
      let w1 = after_update P table p w in
      (
        profile_of P table p.user_id (sent_texts P table p r) (after_get P table p.user_id w1),
        ap (λ t. t.0)
            (bind-ok (update P (open_executor P server) p)
                (λ _. get_by_id P (open_executor P server) p.user_id) w
                (update_lem P table p w h fitting)
              ∙ get_lem P table p.user_id (sent_texts P table p r) w1
                  (after_update_open P table p w h) (after_update_stored P table p r w found)),
        refl,
        refl,
      )
