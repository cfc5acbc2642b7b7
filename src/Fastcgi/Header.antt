-- ===== src/Fastcgi/Header.antt =====
-- fastcgi.rs: `Header`, the eight bytes in front of every record.
use async_fcgi.Base.{ℕ, ◌+◌, ◌-◌, ◌/◌, ◌%◌, ◌<◌, ◌≡◌, refl, arith, ◌==◌, ◌++◌, append_assoc, []}
use async_fcgi.Base.{if◌then◌else◌, length, ◌∷◌}
use async_fcgi.Base.Result.{Res, ok, ◌>>=◌}
use async_fcgi.Bytes.{Bytes, IsU8, IsU16, get_u8, get_u16, put_u8, put_u16, advance}
use async_fcgi.Fastcgi.Types.{RecordType, rtype_as_u8, rtype_try_from, expect}
use async_fcgi.Fastcgi.Types.{rtype_try_from-as_u8}

pub record Header : Type 0 where
  pub version : ℕ
  pub rtype : RecordType
  pub request_id : ℕ
  pub content_length : ℕ
  pub padding_length : ℕ

abbrev pub header_len : ℕ
header_len = 8

abbrev pub version_1 : ℕ
version_1 = 1

-- The padding that fills a content of `len` bytes up to a multiple of eight.
unfoldable pub padding : ℕ → ℕ
padding len = let pad : ℕ = len % 8 in if pad == 0 then pad else 8 - pad

unfoldable pub new : RecordType → ℕ → ℕ → Header
new rtype request_id len = record {
  version = version_1;
  rtype = rtype;
  request_id = request_id;
  content_length = len;
  padding_length = padding len;
}

pub write_into : Header → Bytes → Bytes
write_into h buf =
    let buf1 = put_u8 buf h.version in
    let buf2 = put_u8 buf1 (rtype_as_u8 h.rtype) in
    let buf3 = put_u16 buf2 h.request_id in
    let buf4 = put_u16 buf3 h.content_length in
    let buf5 = put_u8 buf4 h.padding_length in put_u8 buf5 0

unfoldable pub parse : Bytes → Res (Header × Bytes)
parse data0 = do
  (version, data1) ← get_u8 data0
  (byte, data2) ← get_u8 data1
  rtype ← expect (rtype_try_from byte)
  (request_id, data3) ← get_u16 data2
  (content_length, data4) ← get_u16 data3
  (padding_length, data5) ← get_u8 data4
  rest ← advance data5 1
  ok (
    record {
      version = version;
      rtype = rtype;
      request_id = request_id;
      content_length = content_length;
      padding_length = padding_length;
    },
    rest,
  )

unfoldable pub get_padding : Header → ℕ
get_padding h = h.padding_length

-- The fields fit the machine types of the struct.
pub record IsWire (h : Header) : Type 0 where
  pub version_u8 : IsU8 h.version
  pub request_id_u16 : IsU16 h.request_id
  pub content_length_u16 : IsU16 h.content_length
  pub padding_length_u8 : IsU8 h.padding_length

-- The eight bytes of a header.
unfoldable pub bytes : Header → Bytes
bytes h =
    h.version
    ∷ rtype_as_u8 h.rtype
    ∷ (h.request_id / 256 % 256)
    ∷ (h.request_id % 256)
    ∷ (h.content_length / 256 % 256)
    ∷ (h.content_length % 256)
    ∷ h.padding_length
    ∷ 0
    ∷ []

-- The padding of a content is less than eight bytes and fills it up to a multiple of eight.
pub padding-bounds : (len : ℕ) → (padding len < 8) × ((len + padding len) % 8 ≡ 0)
unfolding padding
padding-bounds len = ground arith

pub write_into-bytes : (h : Header) (buf : Bytes) → write_into h buf ≡ buf ++ bytes h
unfolding write_into bytes
write_into-bytes h buf = simp append_assoc

pub length-bytes : (h : Header) → length (bytes h) ≡ 8
unfolding bytes
length-bytes h = refl

-- A header that was written is read back, and what follows it is left.
pub parse-bytes : (h : Header) (rest : Bytes) → IsWire h → parse (bytes h ++ rest) ≡ ok (h, rest)
unfolding parse bytes advance
parse-bytes h rest w = ground (arith, rtype_try_from-as_u8 h.rtype)

-- A header takes eight bytes.
pub parse-shortens :
    (d : Bytes) (h : Header) (rest : Bytes) → parse d ≡ ok (h, rest) → length d ≡ length rest + 8
unfolding parse advance
parse-shortens [] h rest e = cc
parse-shortens (a ∷ []) h rest e = cc
parse-shortens (a ∷ b ∷ []) h rest e = ground arith
parse-shortens (a ∷ b ∷ c ∷ []) h rest e = ground arith
parse-shortens (a ∷ b ∷ c ∷ i ∷ []) h rest e = ground arith
parse-shortens (a ∷ b ∷ c ∷ i ∷ j ∷ []) h rest e = ground arith
parse-shortens (a ∷ b ∷ c ∷ i ∷ j ∷ k ∷ []) h rest e = ground arith
parse-shortens (a ∷ b ∷ c ∷ i ∷ j ∷ k ∷ l ∷ []) h rest e = ground arith
parse-shortens (a ∷ b ∷ c ∷ i ∷ j ∷ k ∷ l ∷ m ∷ d) h rest e = ground arith
