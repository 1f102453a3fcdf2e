-- ===== src/Repository/ProfileRepository/Tests.antt =====
-- Profiles stored and read again on a concrete table.
use profile_service_cpp.Prelude.{none, some, [], ◌∷◌, ◌≡◌, refl}
use profile_service_cpp.Effect.{ok, ◌>>=◌, ◌>>◌}
use profile_service_cpp.Models.{Profile}
use profile_service_cpp.Repository.Sql.{open_executor}
use profile_service_cpp.Repository.ProfileRepository.{create, get_by_id, update}
use profile_service_cpp.Repository.ProfileRepository.Table.{StoredProfile, blank}
use profile_service_cpp.Repository.ProfileRepository.Runs.{columns_of, sent_texts}
use profile_service_cpp.Repository.ProfileRepository.Laws.{create-get_by_id, update-get_by_id}
use profile_service_cpp.Bench.Profiles.{ProfileWorld, profile_bench, profile_table}

create-get_by_id_example :
    (p : Profile profile_bench) × (((create profile_bench
            (open_executor profile_bench profile_table.server)
            "alice"
          >>= λ _.
              get_by_id profile_bench (open_executor profile_bench profile_table.server) "alice")
        []).0
      ≡ ok p)
    × (p.user_id ≡ "alice")
    × (columns_of profile_bench profile_table p ≡ blank)
create-get_by_id_example = create-get_by_id profile_bench profile_table "alice" [] refl refl

abbrev annas : StoredProfile
annas = record blank { username = some "anna"; avatar_url = some "here" }

abbrev two_users : ProfileWorld
two_users = ("alice", annas) ∷ ("bob", blank) ∷ []

-- what Alice stores: a first name and a bio, and no other text
abbrev new_profile : Profile profile_bench
new_profile = record {
  user_id = "alice";
  first_name = some "Anna";
  last_name = none;
  username = none;
  bio = some "hello";
  avatar_url = none;
  last_seen_at = none;
  created_at = 0;
  updated_at = 0;
}

update-get_by_id_example :
    (q : Profile profile_bench) × (((update profile_bench
            (open_executor profile_bench profile_table.server)
            new_profile
          >> get_by_id profile_bench (open_executor profile_bench profile_table.server) "alice")
        two_users).0
      ≡ ok q)
    × (q.user_id ≡ "alice")
    × (columns_of profile_bench profile_table q
        ≡ sent_texts profile_bench profile_table new_profile annas)
update-get_by_id_example =
    update-get_by_id profile_bench profile_table new_profile annas two_users refl refl refl
