-- ===== src/Types.antt =====
-- src/types.rs: framing limits, command ids, and the fixed 12-byte header.
use cmppprotocol.Prelude.{ℕ, ◌^◌, ◌<◌}

abbrev pub max_message_length : ℕ
max_message_length = 65536

abbrev pub header_length : ℕ
header_length = 12

abbrev pub version_20 : ℕ
version_20 = 0x20

abbrev pub cmd_connect : ℕ
cmd_connect = 0x0000_0001

abbrev pub cmd_connect_resp : ℕ
cmd_connect_resp = 0x8000_0001

abbrev pub cmd_terminate : ℕ
cmd_terminate = 0x0000_0002

abbrev pub cmd_terminate_resp : ℕ
cmd_terminate_resp = 0x8000_0002

abbrev pub cmd_submit : ℕ
cmd_submit = 0x0000_0004

abbrev pub cmd_submit_resp : ℕ
cmd_submit_resp = 0x8000_0004

abbrev pub cmd_deliver : ℕ
cmd_deliver = 0x0000_0005

abbrev pub cmd_deliver_resp : ℕ
cmd_deliver_resp = 0x8000_0005

abbrev pub cmd_active_test : ℕ
cmd_active_test = 0x0000_0008

abbrev pub cmd_active_test_resp : ℕ
cmd_active_test_resp = 0x8000_0008

pub record CmppHeader : Type 0 where
  pub total_length : ℕ
  pub command_id : ℕ
  pub sequence_id : ℕ

-- A `u32`, and the bound of a `usize` on a 64-bit target.
abbrev pub IsU32 : ℕ → Type 0
IsU32 n = n < 2 ^ 32

abbrev pub usize_mod : ℕ
usize_mod = 2 ^ 64
