-- ===== src/Pdu/Clock.antt =====
-- src/pdu.rs, `Connect::new`: the timestamp is the clock, and a CONNECT proves the secret it was made with.
use cmppprotocol.Prelude.{ℕ, ◌+◌, ◌*◌, ◌/◌, ◌%◌, ◌≤◌, ◌≡◌, List, [], ◌∷◌, ◌++◌, replicate, arith}
use cmppprotocol.Types.{IsU32}
use cmppprotocol.Text.{Str, as_bytes}
use cmppprotocol.Pdu.Connect.{UtcTime, decimal10, compute_authenticator_source, new_connect}

-- A clock reading: chrono's ranges.
pub record IsClock (t : UtcTime) : Type 0 where
  pub month : t.month ≤ 12
  pub day : t.day ≤ 31
  pub hour : t.hour ≤ 23
  pub minute : t.minute ≤ 59
  pub second : t.second ≤ 59

-- Two decimal digits.
abbrev pub two_digits : ℕ → List ℕ
two_digits n = (48 + n / 10) ∷ (48 + n % 10) ∷ []

abbrev pub clock_digits : UtcTime → List ℕ
clock_digits t =
    two_digits t.month
    ++ (two_digits t.day ++ (two_digits t.hour ++ (two_digits t.minute ++ two_digits t.second)))

digits_of :
    (a b c d e : ℕ)
    → a ≤ 99
    → b ≤ 99
    → c ≤ 99
    → d ≤ 99
    → e ≤ 99
    → decimal10 (a * 100_000_000 + b * 1_000_000 + c * 10_000 + d * 100 + e)
      ≡ two_digits a ++ (two_digits b ++ (two_digits c ++ (two_digits d ++ two_digits e)))
unfolding decimal10
digits_of a b c d e ha hb hc hd he =
    let n = a * 100_000_000 + b * 1_000_000 + c * 10_000 + d * 100 + e in
    let d0 : n / 1000000000 % 10 ≡ a / 10 = omega arith in
    let d1 : n / 100000000 % 10 ≡ a % 10 = omega arith in
    let d2 : n / 10000000 % 10 ≡ b / 10 = omega arith in
    let d3 : n / 1000000 % 10 ≡ b % 10 = omega arith in
    let d4 : n / 100000 % 10 ≡ c / 10 = omega arith in
    let d5 : n / 10000 % 10 ≡ c % 10 = omega arith in
    let d6 : n / 1000 % 10 ≡ d / 10 = omega arith in
    let d7 : n / 100 % 10 ≡ d % 10 = omega arith in
    let d8 : n / 10 % 10 ≡ e / 10 = omega arith in
    let d9 : n / 1 % 10 ≡ e % 10 = omega arith in rw (d0, d1, d2, d3, d4, d5, d6, d7, d8, d9)

-- For a clock reading, the authenticator of a new CONNECT is the digest of the account, nine zeros,
-- the secret and the ten digits MMDDHHMMSS of the clock, and its timestamp is a 32-bit word.
pub new_connect-clock :
    (md5 : List ℕ → List ℕ) (now : UtcTime) (source_addr shared_secret : Str) (version : ℕ)
    → IsClock now
    → ((new_connect md5 now source_addr shared_secret version).authenticator_source
        ≡ md5 (
            as_bytes source_addr
            ++ (replicate 9 0 ++ (as_bytes shared_secret ++ clock_digits now))))
      × IsU32 (new_connect md5 now source_addr shared_secret version).timestamp
unfolding new_connect compute_authenticator_source
new_connect-clock md5 now source_addr shared_secret version k =
    let digits =
      digits_of now.month now.day now.hour now.minute now.second (omega (arith, k.month))
        (omega (arith, k.day)) (omega (arith, k.hour)) (omega (arith, k.minute))
        (omega (arith, k.second)) in
    (rw digits, omega (arith, k.month, k.day, k.hour, k.minute, k.second))
