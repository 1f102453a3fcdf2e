-- ===== src/Mappers.antt =====
-- src/repository/mappers.cpp: from a row to a record. A time stamp is the clock's, whatever the row holds.
use profile_service_cpp.Prelude.{String, Option, value_or}
use profile_service_cpp.Platform.{Platform}
use profile_service_cpp.Effect.{Action, ret, lift, ◌>>=◌}
use profile_service_cpp.Models.{
  Profile, new_profile, Contact, new_contact, PrivacySettings, new_privacy_settings,
  NotificationSettings, new_notification_settings, Favorite, new_favorite,
}
use profile_service_cpp.Database.Row.{get_string_value, get_bool_value}

module _ (P : Platform) where
  abbrev text : Option P.Row → String → Action P.World (Option String)
  text row column = lift (get_string_value P row column)

  -- `ProfileMapper::MapRow`
  unfoldable pub map_profile : Option P.Row → Action P.World (Profile P)
  unfolding get_string_value
  map_profile row = do
    user_id ← text row "user_id"
    first_name ← text row "first_name"
    last_name ← text row "last_name"
    username ← text row "username"
    bio ← text row "bio"
    avatar_url ← text row "avatar_url"
    created_at ← P.now
    updated_at ← P.now
    ret (record {
      user_id = value_or user_id (new_profile P).user_id;
      first_name = first_name;
      last_name = last_name;
      username = username;
      bio = bio;
      avatar_url = avatar_url;
      last_seen_at = (new_profile P).last_seen_at;
      created_at = created_at;
      updated_at = updated_at;
    })

  -- `ContactMapper::MapRow`
  unfoldable pub map_contact : Option P.Row → Action P.World (Contact P)
  unfolding get_string_value
  map_contact row = do
    owner_id ← text row "owner_id"
    contact_id ← text row "contact_id"
    alias ← text row "alias"
    created_at ← P.now
    ret (record {
      owner_id = value_or owner_id (new_contact P).owner_id;
      contact_id = value_or contact_id (new_contact P).contact_id;
      alias = alias;
      created_at = created_at;
    })

  -- `PrivacySettingsMapper::MapRow`
  unfoldable pub map_privacy_settings : Option P.Row → Action P.World PrivacySettings
  unfolding get_string_value
  map_privacy_settings row = do
    user_id ← text row "user_id"
    profile_vis ← text row "profile_visibility"
    last_seen_vis ← text row "last_seen_visibility"
    avatar_vis ← text row "avatar_visibility"
    ret (record {
      user_id = value_or user_id new_privacy_settings.user_id;
      profile_visibility = value_or profile_vis new_privacy_settings.profile_visibility;
      last_seen_visibility = value_or last_seen_vis new_privacy_settings.last_seen_visibility;
      avatar_visibility = value_or avatar_vis new_privacy_settings.avatar_visibility;
    })

  -- `NotificationMapper::MapRow`; `muted_until` is never read.
  unfoldable pub map_notification : Option P.Row → Action P.World (NotificationSettings P)
  unfolding get_string_value get_bool_value
  map_notification row = do
    id ← text row "id"
    user_id ← text row "user_id"
    chat_id ← text row "chat_id"
    muted ← lift (get_bool_value P row "muted")
    ret (record {
      id = value_or id (new_notification_settings P).id;
      user_id = value_or user_id (new_notification_settings P).user_id;
      chat_id = chat_id;
      muted = value_or muted (new_notification_settings P).muted;
      muted_until = (new_notification_settings P).muted_until;
    })

  -- `FavoriteMapper::MapRow`
  unfoldable pub map_favorite : Option P.Row → Action P.World (Favorite P)
  unfolding get_string_value
  map_favorite row = do
    user_id ← text row "user_id"
    chat_id ← text row "chat_id"
    created_at ← P.now
    ret (record {
      user_id = value_or user_id (new_favorite P).user_id;
      chat_id = value_or chat_id (new_favorite P).chat_id;
      created_at = created_at;
    })
