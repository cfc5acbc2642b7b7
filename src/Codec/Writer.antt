-- ===== src/Codec/Writer.antt =====
-- codec.rs: `FCGIWriter`, which writes records to a socket.
pub mod Streams
pub mod Append
pub mod End
pub mod Data
pub mod Pairs
pub mod AddAll
pub mod Chunk
pub mod Body
pub mod Received
pub mod Single
use async_fcgi.Base.{ℕ, zero, suc, ◌+◌, ◌-◌, ◌≡◌, Bool, List, [], ◌∷◌, ◌++◌, Option, none, some}
use async_fcgi.Base.{length, take, drop, ltb, leb, ◌==◌, if◌then◌else◌, bit_or}
use async_fcgi.Base.Result.{Res, ok, panic}
use async_fcgi.Bytes.{Bytes, as_u8, as_u16, as_u32, put_u8, put_u16, put_u32, slice}
use async_fcgi.Fastcgi.Types.{RecordType, FastCgiRole, role_as_u16}
use async_fcgi.Fastcgi.Header.{Header, header_len}
use async_fcgi.Fastcgi.Header
use async_fcgi.Fastcgi.NameValuePair.{NameValuePair}
use async_fcgi.Fastcgi.Record.{mgmt_request_id}
use async_fcgi.Codec.Io.{
  Io, Outcome, done, too_short, panicked, stuck, M, after, ◌>>=◌, ◌>>◌, return, ends,
  write_whole_buf,
}

-- `FCGIType`
pub data FcgiType : Type 0 where
  begin_request : ℕ → FastCgiRole → ℕ → FcgiType
  abort_request : ℕ → FcgiType
  end_request : ℕ → ℕ → ℕ → FcgiType
  params : ℕ → List NameValuePair → FcgiType
  stdin stdout stderr data_stream : ℕ → Bytes → FcgiType
  get_values get_values_result : List NameValuePair → FcgiType

-- `BUF_LEN`: at most one record without padding, and a header.
abbrev pub buf_len : ℕ
buf_len = 0xffff - 7 + 8

-- `&mut buf[0..HEADER_LEN]` is overwritten by a header.
pub overwrite : Header → Bytes → Bytes
overwrite h buf = Header.write_into h [] ++ drop header_len buf

-- What `unwrap` or an index does: a panic.
abbrev of_res : {A : Type 0} → Res A → M A
of_res (ok a) = return a
of_res panic = ends panicked

-- `blank` is the content of the eight bytes that `set_len` makes room for: it is not initialised.
module _ (blank : Bytes) where
  -- The loop of `append_to_stream` on fuel. `set_len` is undefined in Rust where the buffer that was
  -- written had less than eight bytes of its capacity left; here there are eight bytes all the same.
  append_loop : ℕ → Bytes → Bytes → ℕ → RecordType → M Bytes
  append_loop zero val buf request_id rtype = ends stuck
  append_loop (suc fuel) val buf request_id rtype =
      let more : M Bytes = (do
        let room = buf_len - length buf
        let part = take room val
        let h = Header.new rtype request_id (as_u16 (buf_len - header_len))
        write_whole_buf (overwrite h buf)
        write_whole_buf part
        append_loop fuel (drop room val) blank request_id rtype) in
      if ltb buf_len (length buf + length val) then more else return (buf ++ val)

  -- The first round may write no byte of `val`, each later one writes some.
  pub append_to_stream : Bytes → Bytes → ℕ → RecordType → M Bytes
  unfolding append_loop
  append_to_stream val buf request_id rtype = append_loop (length val + 2) val buf request_id rtype

-- What is left in the buffer, with its padding.
write_last : Bytes → ℕ → RecordType → M (Unit {0})
write_last buf request_id rtype = do
  let last_head = Header.new rtype request_id (as_u16 (length buf - header_len))
  let buf1 = overwrite last_head buf
  pad ← of_res (slice buf1 0 (Header.get_padding last_head))
  write_whole_buf buf1
  write_whole_buf pad

pub end_stream : Bytes → ℕ → RecordType → M (Unit {0})
unfolding write_last
end_stream buf request_id rtype = do
  if ltb 0 (length buf - header_len) then write_last buf request_id rtype else return tt
  write_whole_buf (Header.write_into (Header.new rtype request_id 0) [])

-- The loop of `flush_data_chunk`: what is left for the last record.
flush_loop : ℕ → Bytes → ℕ → RecordType → M Bytes
flush_loop zero chunk request_id rtype = ends stuck
flush_loop (suc fuel) chunk request_id rtype =
    let more : M Bytes = (do
      let part = take (buf_len - header_len) chunk
      let h = Header.new rtype request_id (as_u16 (buf_len - header_len))
      write_whole_buf (Header.write_into h [])
      write_whole_buf part
      flush_loop fuel (drop (buf_len - header_len) chunk) request_id rtype) in
    if ltb (buf_len - header_len) (length chunk) then more else return chunk

flush_last : Bytes → ℕ → RecordType → M (Unit {0})
flush_last chunk request_id rtype = do
  let last_head = Header.new rtype request_id (as_u16 (length chunk))
  let header = Header.write_into last_head []
  if length chunk == 0 then write_whole_buf header else (do
    pad ← of_res (slice header 0 (Header.get_padding last_head))
    write_whole_buf header
    write_whole_buf chunk
    write_whole_buf pad)

-- Every round takes 65528 bytes, so `length chunk + 1` rounds are enough.
pub flush_data_chunk : Bytes → ℕ → RecordType → M (Unit {0})
unfolding flush_loop flush_last
flush_data_chunk chunk request_id rtype = do
  last ← flush_loop (length chunk + 1) chunk request_id rtype
  flush_last last request_id rtype

-- `NameValuePairWriter`, but for the writer that it borrows.
pub record NameValuePairWriter : Type 0 where
  pub request_id : ℕ
  pub rtype : RecordType
  pub buf : Bytes

-- One length of a pair; `panicked` if it has more than 31 bits.
length_bytes : Bytes → ℕ → M Bytes
length_bytes blen n =
    if ltb 0x7f n
    then (if ltb 0x7fffffff n
        then ends panicked
        else return (put_u32 blen (as_u32 (bit_or n 0x80000000))))
    else return (put_u8 blen (as_u8 n))

module _ (blank : Bytes) where
  pub kv_stream : ℕ → RecordType → NameValuePairWriter
  kv_stream request_id rtype = record { request_id = request_id; rtype = rtype; buf = blank }

  pub add_kv : NameValuePairWriter → Bytes → Bytes → M NameValuePairWriter
  unfolding length_bytes
  add_kv kvw name val = do
    blen1 ← length_bytes [] (length name)
    blen ← length_bytes blen1 (length val)
    buf1 ← append_to_stream blank blen kvw.buf kvw.request_id kvw.rtype
    buf2 ← append_to_stream blank name buf1 kvw.request_id kvw.rtype
    buf3 ← append_to_stream blank val buf2 kvw.request_id kvw.rtype
    return (record kvw { buf = buf3 })

  unfoldable pub add : NameValuePairWriter → NameValuePair → M NameValuePairWriter
  add kvw pair = add_kv kvw pair.name_data pair.value_data

  unfoldable pub extend : NameValuePairWriter → List (Bytes × Bytes) → M NameValuePairWriter
  extend kvw [] = return kvw
  extend kvw ((k, v) ∷ iter) = do kvw1 ← add_kv kvw k v; extend kvw1 iter

  pub flush : NameValuePairWriter → M (Unit {0})
  flush kvw = end_stream kvw.buf kvw.request_id kvw.rtype

  pub add_all : NameValuePairWriter → List NameValuePair → M NameValuePairWriter
  add_all kvw [] = return kvw
  add_all kvw (pair ∷ p) = do kvw1 ← add kvw pair; add_all kvw1 p

  pub encode_kvp : ℕ → RecordType → List NameValuePair → M (Unit {0})
  unfolding add_all
  encode_kvp request_id rtype p = do kvps ← add_all (kv_stream request_id rtype) p; flush kvps

  pub encode_data : ℕ → RecordType → Bytes → M (Unit {0})
  encode_data request_id rtype bytes = do
    buf ← append_to_stream blank bytes blank request_id rtype
    end_stream buf request_id rtype

  pub encode : FcgiType → M (Unit {0})
  encode (begin_request request_id role flags) =
      let buf = Header.write_into (Header.new RecordType.begin_request request_id 8) [] in
      let buf1 = put_u8 (put_u16 buf (role_as_u16 role)) flags in
      write_whole_buf (buf1 ++ (0 ∷ 0 ∷ 0 ∷ 0 ∷ 0 ∷ []))
  encode (abort_request request_id) =
      write_whole_buf (Header.write_into (Header.new RecordType.abort_request request_id 0) [])
  encode (end_request request_id app_status proto_status) =
      let buf = Header.write_into (Header.new RecordType.end_request request_id 8) [] in
      let buf1 = put_u8 (put_u32 buf app_status) proto_status in
      write_whole_buf (buf1 ++ (0 ∷ 0 ∷ 0 ∷ []))
  encode (params request_id p) = encode_kvp request_id RecordType.params p
  encode (stdin request_id bytes) = encode_data request_id RecordType.std_in bytes
  encode (stdout request_id bytes) = encode_data request_id RecordType.std_out bytes
  encode (stderr request_id bytes) = encode_data request_id RecordType.std_err bytes
  encode (data_stream request_id bytes) = encode_data request_id RecordType.data_stream bytes
  encode (get_values p) = encode_kvp mgmt_request_id RecordType.get_values p
  encode (get_values_result p) = encode_kvp mgmt_request_id RecordType.get_values_result p

  -- The loop of `data_stream` over the chunks of a body; `none` is a chunk that is an error, which
  -- is passed over. What is left of `len`, and the buffer.
  body_loop : List (Option Bytes) → Bytes → ℕ → ℕ → RecordType → M (ℕ × Bytes)
  body_loop [] buf len request_id rtype = return (len, buf)
  body_loop (none ∷ chunks) buf len request_id rtype = body_loop chunks buf len request_id rtype
  body_loop (some val ∷ chunks) buf len request_id rtype = do
    buf1 ← append_to_stream blank val buf request_id rtype
    body_loop chunks buf1 (len - length val) request_id rtype

  -- `FCGIWriter::data_stream`
  pub write_body : List (Option Bytes) → ℕ → RecordType → ℕ → M (Unit {0})
  unfolding body_loop
  write_body chunks request_id rtype len = do
    (left, buf) ← body_loop chunks blank len request_id rtype
    if ltb 0 left
        then (encode (abort_request request_id) >> ends too_short)
        else end_stream buf request_id rtype
