-- ===== src/Config/Valid.antt =====
-- src/config.rs: `validate` accepts exactly the configurations in range.
use cmppprotocol.Prelude.{
  ℕ, ◌≤◌, ◌≡◌, ◌≢◌, ◌↔◌, refl, [], ◌∷◌, Option, none, some, Bool, true, false, ◌==◌, not, in_range,
  arith, ltb→le, le→ltb,
}
use cmppprotocol.Text.{Str}
use cmppprotocol.Encoding.{len}
use cmppprotocol.Types.{version_20}
use cmppprotocol.Config.{
  Complaint, CmppProtocolParams, CmppConfig, require, validate_keepalive, validate_params, is_empty,
  validate_config, ℤ, pos, negsuc, below_one, above_max_port,
}

pub KeepaliveInRange : Option ℕ → ℕ → Type 0
KeepaliveInRange none interval = Unit
KeepaliveInRange (some idle) interval =
    (1 ≤ idle) × (idle ≤ 4294967) × (1 ≤ interval) × (interval ≤ 4294967)

-- The ranges that the documentation of the parameters gives.
pub record ParamsInRange (p : CmppProtocolParams) : Type 0 where
  pub heartbeat_interval : 1 ≤ p.heartbeat_interval
  pub response_timeout : 1 ≤ p.response_timeout
  pub retry_count : 1 ≤ p.retry_count
  pub window_size : (1 ≤ p.window_size) × (p.window_size ≤ 16384)
  pub connect_timeout : 1 ≤ p.connect_timeout
  pub read_idle_timeout : 1 ≤ p.read_idle_timeout
  pub event_backpressure_timeout_ms : 1 ≤ p.event_backpressure_timeout_ms
  pub event_spool_capacity : (1 ≤ p.event_spool_capacity) × (p.event_spool_capacity ≤ 16384)
  pub write_batch_max_frames : (1 ≤ p.write_batch_max_frames) × (p.write_batch_max_frames ≤ 16384)
  pub write_batch_max_bytes : 1 ≤ p.write_batch_max_bytes
  pub keepalive : KeepaliveInRange p.tcp_keepalive_secs p.tcp_keepalive_interval_secs

pub PortInRange : ℤ → Type 0
PortInRange (pos n) = (1 ≤ n) × (n ≤ 65535)
PortInRange (negsuc n) = ⊥

pub record ConfigInRange (c : CmppConfig) : Type 0 where
  pub host : c.host ≢ []
  pub port : PortInRange c.port
  pub account : c.account ≢ []
  pub account_short : len c.account ≤ 6
  pub password : c.password ≢ []
  pub version : c.version ≡ 0x20
  pub params : ParamsInRange c.protocol_params

-- Passing a check and the checks after it.
require_passed :
    (bad : Bool) (complaint : Complaint) (rest : Option Complaint)
    → require bad complaint rest ≡ none
    → (bad ≡ false) × (rest ≡ none)
require_passed true complaint rest h = cc
require_passed false complaint rest h = (refl, h)

positive : (n : ℕ) → (n == 0) ≡ false → 1 ≤ n
positive n h = ground arith

not_pos : (n : ℕ) → 1 ≤ n → (n == 0) ≡ false
not_pos n h = ground arith

keepalive_passed :
    (idle : Option ℕ) (interval : ℕ)
    → validate_keepalive idle interval ≡ none
    → KeepaliveInRange idle interval
unfolding validate_keepalive KeepaliveInRange
keepalive_passed none interval h = tt
keepalive_passed (some idle) interval h =
    let (a, h1) = require_passed _ _ _ h in
    let (b, h2) = require_passed _ _ _ h1 in
    let (c, h3) = require_passed _ _ _ h2 in
    let (d, h4) = require_passed _ _ _ h3 in
    (positive idle a, ltb→le _ _ b, positive interval c, ltb→le _ _ d)

keepalive_in_range :
    (idle : Option ℕ) (interval : ℕ)
    → KeepaliveInRange idle interval
    → validate_keepalive idle interval ≡ none
unfolding validate_keepalive KeepaliveInRange
keepalive_in_range none interval h = refl
keepalive_in_range (some idle) interval (a, b, c, d) =
    rw (not_pos idle a, le→ltb 4294967 idle b, not_pos interval c, le→ltb 4294967 interval d)

in_range_passed : (lo hi n : ℕ) → not (in_range lo hi n) ≡ false → (lo ≤ n) × (n ≤ hi)
in_range_passed lo hi n h = ground arith

in_range_true : (lo hi n : ℕ) → lo ≤ n → n ≤ hi → not (in_range lo hi n) ≡ false
in_range_true lo hi n a b = ground arith

params_passed : (p : CmppProtocolParams) → validate_params p ≡ none → ParamsInRange p
unfolding validate_params
params_passed p h =
    let (c1, h1) = require_passed _ _ _ h in
    let (c2, h2) = require_passed _ _ _ h1 in
    let (c3, h3) = require_passed _ _ _ h2 in
    let (c4, h4) = require_passed _ _ _ h3 in
    let (c5, h5) = require_passed _ _ _ h4 in
    let (c6, h6) = require_passed _ _ _ h5 in
    let (c7, h7) = require_passed _ _ _ h6 in
    let (c8, h8) = require_passed _ _ _ h7 in
    let (c9, h9) = require_passed _ _ _ h8 in
    let (c10, h10) = require_passed _ _ _ h9 in
    let (c11, h11) = require_passed _ _ _ h10 in
    record {
      heartbeat_interval = positive _ c1;
      response_timeout = positive _ c2;
      retry_count = positive _ c3;
      window_size = (positive _ c4, ltb→le _ _ c5);
      connect_timeout = positive _ c6;
      read_idle_timeout = positive _ c7;
      event_backpressure_timeout_ms = positive _ c8;
      event_spool_capacity = in_range_passed _ _ _ c9;
      write_batch_max_frames = in_range_passed _ _ _ c10;
      write_batch_max_bytes = positive _ c11;
      keepalive = keepalive_passed _ _ h11;
    }

params_in_range : (p : CmppProtocolParams) → ParamsInRange p → validate_params p ≡ none
unfolding validate_params
params_in_range p r =
    rw
      (
        not_pos _ r.heartbeat_interval,
        not_pos _ r.response_timeout,
        not_pos _ r.retry_count,
        not_pos _ r.window_size.0,
        le→ltb 16384 p.window_size r.window_size.1,
        not_pos _ r.connect_timeout,
        not_pos _ r.read_idle_timeout,
        not_pos _ r.event_backpressure_timeout_ms,
        in_range_true 1 16384 p.event_spool_capacity r.event_spool_capacity.0
            r.event_spool_capacity.1,
        in_range_true 1 16384 p.write_batch_max_frames r.write_batch_max_frames.0
            r.write_batch_max_frames.1,
        not_pos _ r.write_batch_max_bytes,
      )
      (keepalive_in_range _ _ r.keepalive)

port_passed : (p : ℤ) → below_one p ≡ false → above_max_port p ≡ false → PortInRange p
unfolding below_one above_max_port PortInRange
port_passed (pos n) a b = (ltb→le n 1 a, ltb→le 65535 n b)
port_passed (negsuc n) a b = cc

port_in_range : (p : ℤ) → PortInRange p → (below_one p ≡ false) × (above_max_port p ≡ false)
unfolding below_one above_max_port PortInRange
port_in_range (pos n) (a, b) = (le→ltb n 1 a, le→ltb 65535 n b)
port_in_range (negsuc n) r = absurd r

is_empty-false : (s : Str) → is_empty s ≡ false → s ≢ []
unfolding is_empty
is_empty-false [] h = cc
is_empty-false (c ∷ s) h = λ e. cc

is_empty-≢nil : (s : Str) → s ≢ [] → is_empty s ≡ false
unfolding is_empty
is_empty-≢nil [] h = absurd (h refl)
is_empty-≢nil (c ∷ s) h = refl

supported : (v : ℕ) → not (v == version_20) ≡ false → v ≡ 0x20
supported v h = ground arith

config_passed : (c : CmppConfig) → validate_config c ≡ none → ConfigInRange c
unfolding validate_config
config_passed c h =
    let (c1, h1) = require_passed _ _ _ h in
    let (c2, h2) = require_passed _ _ _ h1 in
    let (c3, h3) = require_passed _ _ _ h2 in
    let (c4, h4) = require_passed _ _ _ h3 in
    let (c5, h5) = require_passed _ _ _ h4 in
    let (c6, h6) = require_passed _ _ _ h5 in
    let (c7, h7) = require_passed _ _ _ h6 in
    record {
      host = is_empty-false c.host c1;
      port = port_passed c.port c2 c3;
      account = is_empty-false c.account c4;
      account_short = ltb→le _ _ c5;
      password = is_empty-false c.password c6;
      version = supported c.version c7;
      params = params_passed c.protocol_params h7;
    }

config_in_range : (c : CmppConfig) → ConfigInRange c → validate_config c ≡ none
unfolding validate_config
config_in_range c r =
    let (low, high) = port_in_range c.port r.port in
    let spoken : not (c.version == version_20) ≡ false = ground (arith, r.version) in
    rw
      (
        is_empty-≢nil c.host r.host,
        low,
        high,
        is_empty-≢nil c.account r.account,
        le→ltb 6 (len c.account) r.account_short,
        is_empty-≢nil c.password r.password,
        spoken,
      )
      (params_in_range c.protocol_params r.params)

-- A configuration has no complaint exactly if all of its fields are in their ranges.
pub validate_config_iff : (c : CmppConfig) → validate_config c ≡ none ↔ ConfigInRange c
validate_config_iff c = (config_passed c, config_in_range c)
