-- ===== src/Config.antt =====
-- src/config.rs: the parameters of a connection, their defaults, and their validation. The text of each
-- complaint is a constructor.
pub mod Valid
use cmppprotocol.Prelude.{
  ℕ, ◌+◌, ◌-◌, ◌*◌, ◌/◌, ◌^◌, List, [], ◌∷◌, Option, none, some, Bool, true, false, if◌then◌else◌,
  ltb, ◌==◌, not, in_range,
}
use cmppprotocol.Types.{version_20}
use cmppprotocol.Text.{Str}
use cmppprotocol.Encoding.{len}

-- Which check of `validate` complains.
pub data Complaint : Type 0 where
  heartbeat_interval_zero response_timeout_zero retry_count_zero window_size_range : Complaint
  connect_timeout_zero read_idle_timeout_zero event_backpressure_zero event_spool_range : Complaint
  write_batch_frames_range write_batch_bytes_zero keepalive_range : Complaint
  host_empty port_range account_empty account_too_long password_empty version_unsupported :
      Complaint

abbrev pub max_window_size : ℕ
max_window_size = 16384

pub record CmppProtocolParams : Type 0 where
  pub heartbeat_interval : ℕ
  pub response_timeout : ℕ
  pub retry_count : ℕ
  pub window_size : ℕ
  pub connect_timeout : ℕ
  pub read_idle_timeout : ℕ
  pub verify_authenticator : Bool
  pub event_backpressure_timeout_ms : ℕ
  pub event_spool_capacity : ℕ
  pub write_batch_max_frames : ℕ
  pub write_batch_max_bytes : ℕ
  pub tcp_nodelay : Bool
  pub tcp_keepalive_secs : Option ℕ
  pub tcp_keepalive_interval_secs : ℕ

unfoldable pub default_params : CmppProtocolParams
default_params = record {
  heartbeat_interval = 180;
  response_timeout = 60;
  retry_count = 3;
  window_size = 16;
  connect_timeout = 10;
  read_idle_timeout = 300;
  verify_authenticator = true;
  event_backpressure_timeout_ms = 1000;
  event_spool_capacity = 256;
  write_batch_max_frames = 64;
  write_batch_max_bytes = 64 * 1024;
  tcp_nodelay = true;
  tcp_keepalive_secs = some 60;
  tcp_keepalive_interval_secs = 10;
}

-- `u64::from(u32::MAX) / 1000`
abbrev pub max_keepalive : ℕ
max_keepalive = (2 ^ 32 - 1) / 1000

-- A check that returns early with its complaint, and the checks after it.
abbrev pub require : Bool → Complaint → Option Complaint → Option Complaint
require bad complaint rest = if bad then some complaint else rest

unfoldable pub validate_keepalive : Option ℕ → ℕ → Option Complaint
validate_keepalive none interval = none
validate_keepalive (some idle) interval = require (idle == 0) keepalive_range (
    require (ltb max_keepalive idle) keepalive_range (
      require (interval == 0) keepalive_range
        (require (ltb max_keepalive interval) keepalive_range none)))

-- The first complaint, or none.
unfoldable pub validate_params : CmppProtocolParams → Option Complaint
validate_params p = require (p.heartbeat_interval == 0) heartbeat_interval_zero (
    require (p.response_timeout == 0) response_timeout_zero (
      require (p.retry_count == 0) retry_count_zero (
        require (p.window_size == 0) window_size_range (
          require (ltb max_window_size p.window_size) window_size_range (
            require (p.connect_timeout == 0) connect_timeout_zero (
              require (p.read_idle_timeout == 0) read_idle_timeout_zero (
                require (p.event_backpressure_timeout_ms == 0) event_backpressure_zero (
                  require (not (in_range 1 max_window_size p.event_spool_capacity))
                    event_spool_range
                    (require (not (in_range 1 max_window_size p.write_batch_max_frames))
                      write_batch_frames_range
                      (require (p.write_batch_max_bytes == 0) write_batch_bytes_zero (
                        validate_keepalive p.tcp_keepalive_secs
                          p.tcp_keepalive_interval_secs)))))))))))

-- The values of an `i32`, `negsuc n` for `-(n + 1)`.
pub data ℤ : Type 0 where
  pos : ℕ → ℤ
  negsuc : ℕ → ℤ

-- `i < 1`
unfoldable pub below_one : ℤ → Bool
below_one (pos n) = ltb n 1
below_one (negsuc n) = true

-- `i > 65535`
unfoldable pub above_max_port : ℤ → Bool
above_max_port (pos n) = ltb 65535 n
above_max_port (negsuc n) = false

pub record CmppConfig : Type 0 where
  pub host : Str
  pub port : ℤ
  pub account : Str
  pub password : Str
  pub version : ℕ
  pub protocol_params : CmppProtocolParams

unfoldable pub is_empty : Str → Bool
is_empty [] = true
is_empty (c ∷ s) = false

unfoldable pub validate_config : CmppConfig → Option Complaint
validate_config c = require (is_empty c.host) host_empty (
    require (below_one c.port) port_range (
      require (above_max_port c.port) port_range (
        require (is_empty c.account) account_empty (
          require (ltb 6 (len c.account)) account_too_long (
            require (is_empty c.password) password_empty (
              require (not (c.version == version_20)) version_unsupported
                (validate_params c.protocol_params)))))))
