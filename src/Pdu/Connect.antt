-- ===== src/Pdu/Connect.antt =====
-- src/pdu.rs: the login messages `Connect` and `ConnectResp`, and the authenticators. MD5 is the
-- crate md5's, so a parameter; the clock is an argument.
use cmppprotocol.Prelude.{ℕ, ◌+◌, ◌*◌, ◌/◌, ◌%◌, ◌^◌, List, [], ◌∷◌, ◌++◌, replicate, map}
use cmppprotocol.Error.{Result}
use cmppprotocol.Text.{Str, as_bytes}
use cmppprotocol.Pdu.Bytes.{be32, put_octet_str}
use cmppprotocol.Pdu.Reader.{M, ◌>>=◌, pure, take_bytes, read_u8, read_u32, read_str, run_body}

pub record Connect : Type 0 where
  pub source_addr : Str
  pub authenticator_source : List ℕ
  pub version : ℕ
  pub timestamp : ℕ

unfoldable pub encode_connect : Connect → List ℕ
encode_connect p =
    put_octet_str p.source_addr 6
    ++ (p.authenticator_source ++ ((p.version ∷ []) ++ be32 p.timestamp))

unfoldable pub read_connect : M Connect
read_connect = do
  source_addr ← read_str 6
  authenticator_source ← take_bytes 16
  version ← read_u8
  timestamp ← read_u32
  pure (record {
    source_addr = source_addr;
    authenticator_source = authenticator_source;
    version = version;
    timestamp = timestamp;
  })

unfoldable pub decode_connect : List ℕ → Result Connect
decode_connect body = run_body read_connect body

pub record ConnectResp : Type 0 where
  pub status : ℕ
  pub authenticator_ismg : List ℕ
  pub version : ℕ

unfoldable pub encode_connect_resp : ConnectResp → List ℕ
encode_connect_resp p = (p.status ∷ []) ++ (p.authenticator_ismg ++ (p.version ∷ []))

unfoldable pub read_connect_resp : M ConnectResp
read_connect_resp = do
  status ← read_u8
  authenticator_ismg ← take_bytes 16
  version ← read_u8
  pure (record { status = status; authenticator_ismg = authenticator_ismg; version = version })

unfoldable pub decode_connect_resp : List ℕ → Result ConnectResp
decode_connect_resp body = run_body read_connect_resp body

-- The UTC clock fields that `Connect::new` reads.
pub record UtcTime : Type 0 where
  pub month : ℕ
  pub day : ℕ
  pub hour : ℕ
  pub minute : ℕ
  pub second : ℕ

-- `format!("{:010}", timestamp)`: a `u32` has at most ten decimal digits.
unfoldable pub decimal10 : ℕ → List ℕ
decimal10 t =
    map (λ (p : ℕ). 48 + t / p % 10)
      (10 ^ 9 ∷ 10 ^ 8 ∷ 10 ^ 7 ∷ 10 ^ 6 ∷ 10 ^ 5 ∷ 10 ^ 4 ∷ 10 ^ 3 ∷ 10 ^ 2 ∷ 10 ∷ 1 ∷ [])

module _ (md5 : List ℕ → List ℕ) where
  unfoldable pub compute_authenticator_source : Str → Str → ℕ → List ℕ
  compute_authenticator_source source_addr shared_secret timestamp =
      md5
        (as_bytes source_addr ++ (replicate 9 0 ++ (as_bytes shared_secret ++ decimal10 timestamp)))

  unfoldable pub compute_authenticator_ismg : ℕ → List ℕ → Str → List ℕ
  compute_authenticator_ismg status authenticator_source shared_secret =
      md5 ((status ∷ []) ++ (authenticator_source ++ as_bytes shared_secret))

  unfoldable pub new_connect : UtcTime → Str → Str → ℕ → Connect
  new_connect now source_addr shared_secret version =
      let timestamp =
        now.month * 100_000_000
        + now.day * 1_000_000
        + now.hour * 10_000
        + now.minute * 100
        + now.second in
      record {
        source_addr = source_addr;
        authenticator_source = compute_authenticator_source source_addr shared_secret timestamp;
        version = version;
        timestamp = timestamp;
      }
