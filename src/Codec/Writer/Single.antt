-- ===== src/Codec/Writer/Single.antt =====
-- codec.rs: `encode` for the requests' ends and beginnings, against `fastcgi.rs`.
use async_fcgi.Base.{ℕ, ◌≡◌, refl, ap, ◌∙◌, arith, [], ◌∷◌, ◌++◌, some}
use async_fcgi.Base.{append_assoc}
use async_fcgi.Base.Result.{Res, ok, ◌>>=◌}
use async_fcgi.Bytes.{Bytes, IsU16, IsU32, be_u32, advance}
use async_fcgi.BufVec.{BufList}
use async_fcgi.Fastcgi.Types.{
  RecordType, FastCgiRole, role_as_u16, ProtoStatus, status_as_u8, status_try_from-as_u8,
}
use async_fcgi.Fastcgi.Header.{Header, padding}
use async_fcgi.Fastcgi.Header
use async_fcgi.Fastcgi.Record.{
  Body, read, parse_body, parse_end_request, append, new_begin_request, write_begin_request,
  keep_conn,
}
use async_fcgi.Fastcgi.Record.Read.{IsFrame, frame, read-frame}
use async_fcgi.Codec.Io.{done, write_whole_buf}
use async_fcgi.Codec.Io.Emits.{Emits, same-Emits, write_whole_buf-Emits}
use async_fcgi.Codec.Writer.{FcgiType, encode}
use async_fcgi.Codec.Writer.Streams.{header_out}

-- The end of a request that `encode` writes, with an id of 16 bits and an application status of
-- 32 bits, is read back by `Record::read` as the same request with both statuses; the bytes
-- behind it are left.
pub encode_end_request-read :
    (blank : Bytes) (request_id app_status : ℕ) (status : ProtoStatus) (rest : Bytes)
    → IsU16 request_id
    → IsU32 app_status
    → (out : Bytes) × Emits
        (encode blank (FcgiType.end_request request_id app_status (status_as_u8 status)))
        out
        (done tt)
      × (read (out ++ rest)
          ≡ ok (
            some (record {
              header = Header.new RecordType.end_request request_id 8;
              body =
                  Body.end_request (record { app_status = app_status; protocol_status = status });
            }),
            rest,
          ))
unfolding encode Header.new padding
encode_end_request-read blank request_id app_status status rest u v = (
  frame h content [],
  rw (← same_out) (write_whole_buf-Emits _),
  read-frame h content [] rest is_frame
      ∙ ap (λ b. b >>= λ b'. ok (some (record { header = h; body = b' }), rest)) parsed,
)
  where
    h : Header
    h = Header.new RecordType.end_request request_id 8

    content : Bytes
    content = be_u32 app_status ++ (status_as_u8 status ∷ 0 ∷ 0 ∷ 0 ∷ [])

    same_out :
        ((Header.write_into h [] ++ be_u32 app_status) ++ (status_as_u8 status ∷ []))
          ++ (0 ∷ 0 ∷ 0 ∷ [])
        ≡ frame h content []
    same_out = rw (header_out h) (simp append_assoc)

    is_frame : IsFrame h content []
    is_frame = omega arith

    parsed :
        parse_body content RecordType.end_request
        ≡ ok (Body.end_request (record { app_status = app_status; protocol_status = status }))
    parsed =
        unfold parse_body parse_end_request advance in ground (arith, status_try_from-as_u8 status)

-- `encode` and `Record::append` write the same bytes for the begin of a request.
encode_begin_request-append :
    (blank : Bytes) (copy : BufList → ℕ → Res Bytes) (advance_mut : Bytes → ℕ → Res Bytes)
    (request_id : ℕ) (role : FastCgiRole) (flags : ℕ)
    → (out : Bytes) × Emits
        (encode blank (FcgiType.begin_request request_id role flags))
        out
        (done tt)
      × (append copy advance_mut (new_begin_request role flags request_id) [] ≡ ok out)
unfolding encode new_begin_request append write_begin_request Header.new padding
encode_begin_request-append blank copy advance_mut request_id role flags =
    (_, write_whole_buf-Emits _, refl)

-- The record that begins a request: its role is that of a responder, and the connection is kept.
abbrev pub begin_bytes : ℕ → Bytes
begin_bytes rid =
    Header.bytes (Header.new RecordType.begin_request rid 8) ++ (0 ∷ 1 ∷ 1 ∷ 0 ∷ 0 ∷ 0 ∷ 0 ∷ 0 ∷ [])

pub begin_request-Emits :
    (blank : Bytes) (rid : ℕ)
    → Emits
        (encode blank (FcgiType.begin_request rid FastCgiRole.responder keep_conn))
        (begin_bytes rid)
        (done tt)
unfolding encode role_as_u16
begin_request-Emits blank rid =
    same-Emits (ap write_whole_buf same) (write_whole_buf-Emits (begin_bytes rid))
  where
    h : Header
    h = Header.new RecordType.begin_request rid 8

    same :
        ((Header.write_into h [] ++ (0 ∷ 1 ∷ [])) ++ (1 ∷ [])) ++ (0 ∷ 0 ∷ 0 ∷ 0 ∷ 0 ∷ [])
        ≡ begin_bytes rid
    same = rw (header_out h) (simp append_assoc)
