-- ===== src/Fastcgi/NameValuePair/Laws.antt =====
-- fastcgi.rs: what `NameValuePair::parse` accepts, against the encoding of the protocol.
use async_fcgi.Base.{ℕ, ◌+◌, ◌-◌, ◌≤◌, ◌<◌, ◌≡◌, refl, arith, ltb, [], ◌∷◌, ◌++◌}
use async_fcgi.Base.{
  length, length-append, get_elem?, some, suc, take, drop, length-take, length-drop, append_assoc,
  if◌then◌else◌,
}
use async_fcgi.Base.Result.{ok, panic, ◌>>=◌}
use async_fcgi.Bytes.{Bytes, index, slice, advance, be_u32, get_u32, slice-append, advance-append}
use async_fcgi.Fastcgi.NameValuePair.{NameValuePair, param_length, parse, len}

-- How the protocol writes a length: one byte up to 127, else four bytes with the top bit set.
unfoldable pub length_field : ℕ → Bytes
length_field n = if ltb 0x7f n then be_u32 (n + 0x80000000) else (n ∷ [])

-- How the protocol writes a pair: both lengths, then the name, then the value.
unfoldable pub encoding : NameValuePair → Bytes
encoding p =
    length_field (length p.name_data)
    ++ (length_field (length p.value_data) ++ (p.name_data ++ p.value_data))

-- Both lengths have the one-byte form.
abbrev pub IsShort : NameValuePair → Type 0
IsShort p = (length p.name_data < 128) × (length p.value_data < 128)

length-length_field : (n : ℕ) → length (length_field n) ≡ (if ltb 0x7f n then 4 else 1)
unfolding length_field
length-length_field n = ground arith

-- `NameValuePair::len` is the number of bytes of the encoding of the pair.
pub length-encoding : (p : NameValuePair) → length (encoding p) ≡ len p
unfolding encoding len
length-encoding p = ground (
  arith,
  length-length_field (length p.name_data),
  length-length_field (length p.value_data),
  length-append (length_field (length p.name_data))
      (length_field (length p.value_data) ++ (p.name_data ++ p.value_data)),
  length-append (length_field (length p.value_data)) (p.name_data ++ p.value_data),
  length-append p.name_data p.value_data,
)

param_length_short :
    (bs : Bytes) (pos n : ℕ)
    → get_elem? bs pos ≡ some n
    → n < 128
    → param_length bs pos ≡ ok (n, pos + 1)
unfolding param_length index
param_length_short bs pos n e h = ground arith

encoding_short :
    (p : NameValuePair)
    → IsShort p
    → encoding p ≡ length p.name_data ∷ length p.value_data ∷ (p.name_data ++ p.value_data)
unfolding encoding length_field
encoding_short p h = ground arith

-- The parser on two one-byte lengths and the bytes that they announce.
parse_short :
    (n v rest : Bytes)
    → length n < 128
    → length v < 128
    → parse (length n ∷ length v ∷ (n ++ (v ++ rest)))
      ≡ ok (record { name_data = n; value_data = v }, rest)
unfolding parse
parse_short n v rest hn hv =
    let bs : Bytes = length n ∷ length v ∷ (n ++ (v ++ rest)) in
    let value : slice bs (2 + length n) (2 + length n + length v) ≡ ok v =
      rw (two_add (length n)) (slice-append (length n ∷ length v ∷ n) v rest) in
    let tail : advance bs (2 + length n + length v) ≡ ok rest =
      rw (← behind) (rw (regroup) (advance-append (length n ∷ length v ∷ (n ++ v)) rest)) in
    rw
      (
        param_length_short bs 0 (length n) refl hn,
        param_length_short bs 1 (length v) refl hv,
        slice-append (length n ∷ length v ∷ []) n (v ++ rest),
        value,
        tail,
      )
      refl
  where
    two_add : (k : ℕ) → 2 + k ≡ suc (suc k)
    two_add k = omega arith

    behind : length (length n ∷ length v ∷ (n ++ v)) ≡ 2 + length n + length v
    behind = omega (arith, length-append n v)

    regroup : length n ∷ length v ∷ (n ++ (v ++ rest)) ≡ length n ∷ length v ∷ (n ++ v) ++ rest
    regroup = simp append_assoc

-- A pair whose name and value have less than 128 bytes is read back from its encoding, and the
-- bytes behind it are left.
pub parse-encoding :
    (p : NameValuePair) (rest : Bytes) → IsShort p → parse (encoding p ++ rest) ≡ ok (p, rest)
parse-encoding p rest h =
    rw (encoding_short p h, append_assoc p.name_data p.value_data rest)
      (parse_short p.name_data p.value_data rest h.0 h.1)

-- Three bytes never make up a `u32`.
get_u32_of_three : (xs : Bytes) → length xs ≡ 3 → get_u32 xs ≡ panic
get_u32_of_three [] h = refl
get_u32_of_three (a ∷ []) h = refl
get_u32_of_three (a ∷ b ∷ []) h = refl
get_u32_of_three (a ∷ b ∷ c ∷ []) h = refl
get_u32_of_three (a ∷ b ∷ c ∷ d ∷ r) h = absurd (omega arith)

slice_three : (bs : Bytes) (pos : ℕ) → (slice bs (pos + 1) (pos + 4) >>= get_u32) ≡ panic
unfolding slice
slice_three bs pos = ground (
  arith,
  get_u32_of_three (take (pos + 4 - (pos + 1)) (drop (pos + 1) bs)),
  length-take (pos + 4 - (pos + 1)) (drop (pos + 1) bs),
  length-drop (pos + 1) bs,
)

-- A length byte with its top bit set makes `param_length` panic, whatever follows it: it reads a
-- `u32` from three bytes.
pub param_length_long :
    (bs : Bytes) (pos b : ℕ)
    → get_elem? bs pos ≡ some b
    → 128 ≤ b
    → b < 256
    → param_length bs pos ≡ panic
unfolding param_length index
param_length_long bs pos b e h k = ground (arith, slice_three bs pos)
