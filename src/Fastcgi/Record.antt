-- ===== src/Fastcgi/Record.antt =====
-- fastcgi.rs: `Record` and its bodies, and how a record is read from and written to a buffer.
pub mod Read
pub mod Write
use async_fcgi.Base.{ℕ, ◌+◌, List, [], ◌∷◌, ◌++◌, Option, none, some, length, take, drop, min}
use async_fcgi.Base.{ltb, if◌then◌else◌}
use async_fcgi.Base.Result.{Res, ok, panic, ◌>>=◌}
use async_fcgi.Bytes.{Bytes, as_u16, get_u8, get_u32, slice, advance, put_u8, put_u16}
use async_fcgi.BufVec.{BufList}
use async_fcgi.Fastcgi.Types.{
  RecordType, FastCgiRole, ProtoStatus, expect, status_try_from, role_as_u16,
}
use async_fcgi.Fastcgi.Header.{Header, version_1, padding}
use async_fcgi.Fastcgi.Header
use async_fcgi.Fastcgi.NvBody.{NvBody, max_length}
use async_fcgi.Fastcgi.NvBody

pub record BeginRequestBody : Type 0 where
  pub role : FastCgiRole
  pub flags : ℕ

-- `BeginRequestBody::KEEP_CONN`
abbrev pub keep_conn : ℕ
keep_conn = 1

pub record EndRequestBody : Type 0 where
  pub app_status : ℕ
  pub protocol_status : ProtoStatus

pub record UnknownTypeBody : Type 0 where
  pub rtype : ℕ

pub data Body : Type 0 where
  begin_request : BeginRequestBody → Body
  end_request : EndRequestBody → Body
  unknown_type : UnknownTypeBody → Body
  params : NvBody → Body
  std_in std_err std_out : Bytes → Body
  abort : Body
  get_values get_values_result : NvBody → Body

pub record Record : Type 0 where
  pub header : Header
  pub body : Body

-- `Record::MGMT_REQUEST_ID`
abbrev pub mgmt_request_id : ℕ
mgmt_request_id = 0

unfoldable pub get_request_id : Record → ℕ
get_request_id r = r.header.request_id

-- `EndRequestBody::parse`
unfoldable pub parse_end_request : Bytes → Res EndRequestBody
parse_end_request d = do
  (app_status, d1) ← get_u32 d
  (byte, d2) ← get_u8 d1
  protocol_status ← expect (status_try_from byte)
  rest ← advance d2 3
  ok (record { app_status = app_status; protocol_status = protocol_status })

parse_unknown_type : Bytes → Res Body
parse_unknown_type payload = do
  (rtype, rest) ← get_u8 payload
  behind ← advance rest 7
  ok (unknown_type (record { rtype = rtype }))

unfoldable pub parse_body : Bytes → RecordType → Res Body
unfolding parse_unknown_type
parse_body payload RecordType.std_out = ok (std_out payload)
parse_body payload RecordType.std_err = ok (std_err payload)
parse_body payload RecordType.end_request = parse_end_request payload >>= λ b. ok (end_request b)
parse_body payload RecordType.unknown_type = parse_unknown_type payload
parse_body payload RecordType.get_values_result = ok (get_values_result (NvBody.from_bytes payload))
parse_body payload RecordType.get_values = ok (get_values (NvBody.from_bytes payload))
parse_body payload RecordType.params = ok (params (NvBody.from_bytes payload))
parse_body payload RecordType.begin_request = panic
parse_body payload RecordType.abort_request = panic
parse_body payload RecordType.std_in = panic
parse_body payload RecordType.data_stream = panic

-- The part of `read` behind the header: `len` is what the header announces.
read_rest : Bytes → Header → Res (Option Record × Bytes)
read_rest d header =
    let len = header.content_length + header.padding_length in
    if ltb (length d) (len + 8) then ok (none, d) else (do
      d1 ← advance d 8
      payload ← slice d1 0 header.content_length
      rest ← advance d1 len
      body ← parse_body payload header.rtype
      ok (some (record { header = header; body = body }), rest))

-- `Record::read`: the header is parsed from a second view, so `d` is untouched until all is there.
unfoldable pub read : Bytes → Res (Option Record × Bytes)
unfolding read_rest
read d =
    if ltb (length d) 8
    then ok (none, d)
    else (do (header, behind) ← Header.parse d; read_rest d header)

-- `BeginRequestBody::new`
unfoldable pub new_begin_request : FastCgiRole → ℕ → ℕ → Record
new_begin_request role flags request_id = record {
  header = record {
    version = version_1;
    rtype = RecordType.begin_request;
    request_id = request_id;
    content_length = 8;
    padding_length = 0;
  };
  body = begin_request (record { role = role; flags = flags });
}

-- `BeginRequestBody::write_into`
unfoldable pub write_begin_request : BeginRequestBody → Bytes → Bytes
write_begin_request b buf =
    let buf1 = put_u16 buf (role_as_u16 b.role) in
    let buf2 = put_u8 buf1 b.flags in buf2 ++ (0 ∷ 0 ∷ 0 ∷ 0 ∷ 0 ∷ [])

-- `STDINBody::new`: the record, and what is left of the buffer.
pub new_stdin : ℕ → Bytes → Record × Bytes
new_stdin request_id b =
    let len = min max_length (length b) in
    (
      record {
        header = Header.new RecordType.std_in request_id (as_u16 len);
        body = std_in (take len b);
      },
      drop len b,
    )

unfoldable pub nv_record_body : NvBody → RecordType → Res Body
nv_record_body b RecordType.params = ok (params b)
nv_record_body b RecordType.get_values = ok (get_values b)
nv_record_body b RecordType.get_values_result = ok (get_values_result b)
nv_record_body b _ = panic

-- `NVBody::to_record`
pub to_record : NvBody → RecordType → ℕ → Res Record
unfolding nv_record_body
to_record b rtype request_id = do
  body ← nv_record_body b rtype
  ok (record {
    header = record {
      version = version_1;
      rtype = rtype;
      request_id = request_id;
      content_length = b.len;
      padding_length = padding b.len;
    };
    body = body;
  })

-- `append` reads the pairs by `Buf::copy_to_bytes`. `BufMut::advance_mut` makes the padding of the
-- bytes that stand behind the buffer, and panics if it has no room for them: it does not grow.
module _ (copy_to_bytes : BufList → ℕ → Res Bytes) (advance_mut : Bytes → ℕ → Res Bytes) where
  append_pairs : Header → NvBody → Bytes → Res Bytes
  append_pairs header nvs buf = do
    let pad = header.padding_length
    let buf1 = Header.write_into header buf
    kvp ← NvBody.drain copy_to_bytes nvs
    advance_mut (buf1 ++ kvp) pad

  append_stdin : Header → Bytes → Bytes → Res Bytes
  append_stdin header [] buf = ok (Header.write_into header buf)
  append_stdin header (b ∷ bs) buf =
      let pad = header.padding_length in advance_mut (Header.write_into header buf ++ (b ∷ bs)) pad

  append_body : Body → Header → Bytes → Res Bytes
  append_body (begin_request brb) header buf =
      ok (write_begin_request brb (Header.write_into header buf))
  append_body (params nvs) header buf = append_pairs header nvs buf
  append_body (get_values nvs) header buf = append_pairs header nvs buf
  append_body (get_values_result nvs) header buf = append_pairs header nvs buf
  append_body (std_in b) header buf = append_stdin header b buf
  append_body abort header buf = ok (Header.write_into header buf)
  append_body (end_request b) header buf = panic
  append_body (unknown_type b) header buf = panic
  append_body (std_err b) header buf = panic
  append_body (std_out b) header buf = panic

  unfoldable pub append : Record → Bytes → Res Bytes
  unfolding append_body append_pairs append_stdin
  append r buf = append_body r.body r.header buf
