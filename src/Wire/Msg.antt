-- ===== src/Wire/Msg.antt =====
-- `Msg` of wire/wire.go, its versions and its types.
use aw.Base.{ℕ, List, Option}
use aw.Base.Arrays.{Bytes}

abbrev pub msg_version1 : ℕ
msg_version1 = 1

abbrev pub msg_type_push : ℕ
msg_type_push = 1

abbrev pub msg_type_pull : ℕ
msg_type_pull = 2

abbrev pub msg_type_sync : ℕ
msg_type_sync = 3

abbrev pub msg_type_send : ℕ
msg_type_send = 4

abbrev pub msg_type_ping : ℕ
msg_type_ping = 5

abbrev pub msg_type_ping_ack : ℕ
msg_type_ping_ack = 6

-- A hash is `[32]byte`; synchronisation data that is nil is `none`.
pub record Msg : Type 0 where
  pub version : ℕ
  pub msg_type : ℕ
  pub to : Bytes 32
  pub msg_data : List ℕ
  pub sync_data : Option (List ℕ)
