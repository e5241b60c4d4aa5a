-- ===== src/Pdu/Reads.antt =====
-- Laws of `BodyReader` of src/pdu.rs: what a decoder reads off the front of the bytes left, composed
-- along its do block.
use cmppprotocol.Prelude.{
  ℕ, zero, suc, ◌+◌, ◌≤◌, ◌<◌, ◌≡◌, refl, sym, ap, ◌∙◌, List, [], ◌∷◌, ◌++◌, false, length,
  length-append, length-drop, take, drop, take-append, drop-append, drop-drop, append-nil,
  append_assoc, arith, ◌==◌, if◌then◌else◌,
}
use native.Mathlib.Nat.{add-zero}
use cmppprotocol.Error.{ok, err, decode, trailing_bytes}
use cmppprotocol.Types.{usize_mod, IsU32}
use cmppprotocol.Text.{Str}
use cmppprotocol.Pdu.Bytes.{be32, put_octet_str}
use cmppprotocol.Pdu.Fields.{Fits, be32_digits, length-put_octet_str, read-put_octet_str}
use cmppprotocol.Pdu.Reader.{
  BodyReader, M, ◌>>=◌, ◌>>◌, pure, take_bytes, read_u8, read_u32, read_str, finish, run_body,
  value,
}

-- The reader stands inside its body, `rest` is what it has not read, and the body has a length that
-- a slice can have.
pub record At (r : BodyReader) (rest : List ℕ) : Type 0 where
  pub inside : r.pos ≤ length r.buf
  pub left : drop r.pos r.buf ≡ rest
  pub sized : length r.buf < usize_mod

abbrev pub advance : BodyReader → ℕ → BodyReader
advance r n = record r { pos = r.pos + n }

pub At-length : {r : BodyReader} {rest : List ℕ} → At r rest → length r.buf ≡ r.pos + length rest
At-length {r} {rest} a = omega (arith, a.inside, ap length a.left, length-drop r.pos r.buf)

pub At-advance :
    (r : BodyReader) (xs rest : List ℕ) → At r (xs ++ rest) → At (advance r (length xs)) rest
At-advance r xs rest a = record {
  inside = omega (arith, At-length a, length-append xs rest);
  left =
      sym (drop-drop r.pos (length xs) r.buf) ∙ ap (drop (length xs)) a.left ∙ drop-append xs rest;
  sized = a.sized;
}

-- `m` reads exactly `xs` and gives `a`, whatever follows.
pub record Reads {ℓ} {A : Type ℓ} (m : M A) (xs : List ℕ) (a : A) : Type ℓ where
  pub reads :
      (r : BodyReader) (rest : List ℕ) → At r (xs ++ rest) → m r ≡ ok (a, advance r (length xs))

take_bytes-At :
    (xs : List ℕ) (r : BodyReader) (rest : List ℕ)
    → At r (xs ++ rest)
    → take_bytes (length xs) r ≡ ok (xs, advance r (length xs))
unfolding take_bytes
take_bytes-At xs r rest a = ground (
  arith,
  At-length a,
  length-append xs rest,
  a.left,
  ap (take (length xs)) a.left,
  take-append xs rest,
)

pub take_bytes-Reads : (xs : List ℕ) → Reads (take_bytes (length xs)) xs xs
take_bytes-Reads xs = record { reads = take_bytes-At xs }

-- A `take` of a number that is the length of what follows.
pub take-Reads : (n : ℕ) (xs : List ℕ) → length xs ≡ n → Reads (take_bytes n) xs xs
take-Reads n xs e = rw (← e) (take_bytes-Reads xs)

pub bind_ok {ℓ κ} :
    {A : Type ℓ} {B : Type κ} (m : M A) (f : A → M B) (r : BodyReader) {a : A} {r' : BodyReader}
    → m r ≡ ok (a, r')
    → (m >>= f) r ≡ f a r'
bind_ok m f r e = rw (e, ◌>>=◌)

pub bind-Reads {ℓ κ} :
    {A : Type ℓ} {B : Type κ} {m : M A} (f : A → M B) {xs ys : List ℕ} {a : A} {b : B}
    → Reads m xs a
    → Reads (f a) ys b
    → Reads (m >>= f) (xs ++ ys) b
bind-Reads {m = m} f {xs = xs} {ys = ys} {a = a} {b = b} p q = record { reads = go }
  where
    ends : (k : ℕ) → k + length xs + length ys ≡ k + length (xs ++ ys)
    ends k = omega (arith, length-append xs ys)

    go :
        (r : BodyReader) (rest : List ℕ)
        → At r ((xs ++ ys) ++ rest)
        → (m >>= f) r ≡ ok (b, advance r (length (xs ++ ys)))
    go r rest at =
        let at' : At r (xs ++ (ys ++ rest)) = rw (append_assoc xs ys rest) at at in
        bind_ok m f r (p.reads r (ys ++ rest) at')
        ∙ q.reads (advance r (length xs)) rest (At-advance r xs (ys ++ rest) at')
        ∙ ap (λ (k : ℕ). ok (b, record r { pos = k })) (ends r.pos)

pub pure-Reads {ℓ} : {A : Type ℓ} (a : A) → Reads (pure a) [] a
pure-Reads a = record {
  reads = λ r rest at. ap (λ (k : ℕ). ok (a, record r { pos = k })) (sym (add-zero r.pos));
}

pub read_u8-Reads : (b : ℕ) → Reads read_u8 (b ∷ []) b
unfolding read_u8
read_u8-Reads b = record {
  reads = λ r rest at. bind_ok (take_bytes 1) _ r (take_bytes-At (b ∷ []) r rest at);
}

pub read_u32-Reads : (n : ℕ) → IsU32 n → Reads read_u32 (be32 n) n
unfolding read_u32 be32
read_u32-Reads n h = record {
  reads = λ r rest at.
      bind_ok (take_bytes 4) _ r (take_bytes-At (be32 n) r rest at)
      ∙ ap (λ (k : ℕ). ok (k, advance r 4)) (be32_digits n h);
}

pub read_str-Reads : (s : Str) (len : ℕ) → Fits len s → Reads (read_str len) (put_octet_str s len) s
unfolding read_str
read_str-Reads s len f = record {
  reads = λ r rest at.
      bind_ok (take_bytes len) _ r
        ((take-Reads len (put_octet_str s len) (length-put_octet_str s len)).reads r rest at)
      ∙ ap (λ v. ok (v, advance r (length (put_octet_str s len)))) (read-put_octet_str s len f);
}

-- The reader at the start of a body.
abbrev pub reader : List ℕ → BodyReader
reader body = record { buf = body; pos = 0 }

pub At-reader : (body : List ℕ) → length body < usize_mod → At (reader body) body
At-reader body h = record { inside = omega arith; left = refl; sized = h }

-- `finish` accepts the end of the body and nothing else.
finish-At :
    (r : BodyReader) (rest : List ℕ)
    → At r rest
    → finish r
      ≡ (if length rest == 0 then ok (tt, r) else err (decode (trailing_bytes (length rest))))
unfolding finish
finish-At r rest a = ground (arith, At-length a)

finish_then :
    {A : Type 0} (a : A) (r : BodyReader) (n : ℕ)
    → finish r ≡ (if n == 0 then ok (tt, r) else err (decode (trailing_bytes n)))
    → value ((finish >> pure a) r) ≡ (if n == 0 then ok a else err (decode (trailing_bytes n)))
unfolding value
finish_then a r zero e = rw (e, ◌>>=◌)
finish_then a r (suc n) e =
    let more : (suc n == 0) ≡ false = ground arith in rw (e, ◌>>=◌) (rw more)

-- Once the fields are read, a body that goes on is refused for its trailing bytes.
pub run_body-read_all :
    {A : Type 0} (m : M A) (xs rest : List ℕ) (a : A)
    → length (xs ++ rest) < usize_mod
    → Reads m xs a
    → run_body m (xs ++ rest)
      ≡ (if length rest == 0 then ok a else err (decode (trailing_bytes (length rest))))
unfolding run_body
run_body-read_all m xs rest a h p =
    let start : At (reader (xs ++ rest)) (xs ++ rest) = At-reader (xs ++ rest) h in
    ap value (bind_ok m (λ a. finish >> pure a) (reader (xs ++ rest)) (p.reads _ rest start))
    ∙ finish_then a _ (length rest) (finish-At _ rest (At-advance _ xs rest start))

pub run_body_whole :
    {A : Type 0} (m : M A) (xs : List ℕ) (a : A)
    → length xs < usize_mod
    → Reads m xs a
    → run_body m xs ≡ ok a
run_body_whole m xs a h p = rw append-nil at (run_body-read_all m xs [] a (rw append-nil h) p)
