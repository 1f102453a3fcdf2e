-- ===== src/Repository/NotificationRepository/Laws.antt =====
-- The repository of notification settings over a server with the table `notification_settings`.
use profile_service_cpp.Prelude.{String, Option, none, some, value_or}
use profile_service_cpp.Platform.{Platform}
use profile_service_cpp.Models.{NotificationSettings}
use profile_service_cpp.Repository.Sql.{open_executor}
use profile_service_cpp.Repository.NotificationRepository.{default_settings}
use profile_service_cpp.Repository.NotificationRepository.Table.{StoredRow, NotificationTable}

module _ (P : Platform) (table : NotificationTable P) where
  open table use {server, stored}

  -- the settings that a row stands for: `muted_until` is not among them
  abbrev pub settings_of_row : String → Option String → StoredRow → NotificationSettings P
  settings_of_row u k r = record {
    id = r.id;
    user_id = u;
    chat_id = k;
    muted = r.muted;
    muted_until = none;
  }

  abbrev settings_or_default : String → Option String → Option StoredRow → NotificationSettings P
  settings_or_default u k none = default_settings P (open_executor P server) u k
  settings_or_default u k (some r) = settings_of_row u k r

  -- what the table says of a user and a chat, with the defaults where it says nothing
  abbrev pub settings_of : P.World → String → Option String → NotificationSettings P
  settings_of w u k = settings_or_default u k (stored w u k)

  abbrev after_get : String → Option String → P.World → P.World
  after_get u k w = server.committed (table.selected u k (server.begun w))

  abbrev until_text : NotificationSettings P → Option String
  until_text s = elim s.muted_until [
    | none ↦ none
    | some t ↦ some (P.strftime "%Y-%m-%d %H:%M:%S" (P.gmtime (P.seconds t)))
  ]

  abbrev after_upsert : NotificationSettings P → P.World → P.World
  after_upsert s w =
      server.committed
        (table.written s.user_id (value_or s.chat_id "") s.muted (until_text s) (server.begun w))
