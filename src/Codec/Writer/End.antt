-- ===== src/Codec/Writer/End.antt =====
-- codec.rs: `end_stream` writes what is left and ends the stream.
use async_fcgi.Base.{ℕ, ◌-◌, ◌≤◌, ◌≡◌, refl, arith, false, inl, inr}
use async_fcgi.Base.{Bool-cases, [], ◌++◌, length, length-append, append_assoc, take, drop}
use async_fcgi.Base.{take-append-drop, drop_all, length-take, length-drop, ltb, ltb→lt, not_ltb→le}
use async_fcgi.Base.Result.{ok}
use async_fcgi.Bytes.{Bytes, as_u16, slice}
use async_fcgi.Fastcgi.Types.{RecordType}
use async_fcgi.Fastcgi.Header.{Header, header_len, padding, padding-bounds, length-bytes}
use async_fcgi.Fastcgi.Header
use async_fcgi.Fastcgi.Record.Read.{frame}
use async_fcgi.Codec.Io.{done, ◌>>◌, write_whole_buf}
use async_fcgi.Codec.Io.Emits.{Emits, bind-Emits, write_whole_buf-Emits}
use async_fcgi.Codec.Writer.{overwrite, write_last, end_stream}
use async_fcgi.Codec.Writer.Streams.{nil, IsBuffer, header_out}
use async_fcgi.Codec.Writer.Streams.{Stream, stream, one-Records}
use async_fcgi.Fastcgi.Record.Read.{slice_front}

pub slice-take : (xs : Bytes) (n : ℕ) → n ≤ length xs → slice xs 0 n ≡ ok (take n xs)
slice-take xs n h =
    rw (take-append-drop n xs) at (slice_front (take n xs) (drop n xs) n (length-take n xs h))

write_last-eq :
    (buf : Bytes) (request_id : ℕ) (rtype : RecordType)
    → IsBuffer buf
    → let content = drop header_len buf in
      let head = Header.bytes (Header.new rtype request_id (length content)) in
      write_last buf request_id rtype ≡ (
        write_whole_buf (head ++ content)
        >> write_whole_buf (take (padding (length content)) (head ++ content)))
unfolding write_last overwrite Header.get_padding Header.new
write_last-eq buf request_id rtype b = rw (as_length, header_out, slice-take _ _ pad_fits) refl
  where
    content : Bytes
    content = drop header_len buf

    as_length : as_u16 (length buf - header_len) ≡ length content
    as_length = omega (arith, length-drop header_len buf, b.has_head, b.has_room)

    pad_fits :
        padding (length content)
        ≤ length (Header.bytes (Header.new rtype request_id (length content)) ++ content)
    pad_fits = omega (
      arith,
      padding-bounds (length content),
      length-bytes (Header.new rtype request_id (length content)),
      length-append (Header.bytes (Header.new rtype request_id (length content))) content,
    )

write_last-Emits :
    (buf : Bytes) (request_id : ℕ) (rtype : RecordType)
    → IsBuffer buf
    → let content = drop header_len buf in
      let h = Header.new rtype request_id (length content) in
      (pad : Bytes) × (length pad ≡ padding (length content))
      × Emits (write_last buf request_id rtype) (frame h content pad) (done tt)
write_last-Emits buf request_id rtype b = (
  take (padding (length content)) (head ++ content),
  length-take _ _ (
      omega (
        arith,
        padding-bounds (length content),
        length-bytes (Header.new rtype request_id (length content)),
        length-append head content,
      )),
  rw
      (
        write_last-eq buf request_id rtype b,
        ← (append_assoc head content (take (padding (length content)) (head ++ content))),
      )
      (bind-Emits (write_whole_buf (head ++ content)) _ (head ++ content) _
        (write_whole_buf-Emits (head ++ content)) (write_whole_buf-Emits _)),
)
  where
    content : Bytes
    content = drop header_len buf

    head : Bytes
    head = Header.bytes (Header.new rtype request_id (length content))

write_end-Emits :
    (request_id : ℕ) (rtype : RecordType)
    → Emits
        (write_whole_buf (Header.write_into (Header.new rtype request_id 0) []))
        (Header.bytes (Header.new rtype request_id 0))
        (done tt)
write_end-Emits request_id rtype =
    rw (header_out (Header.new rtype request_id 0)) (write_whole_buf-Emits _)

-- The rest of the buffer goes out as one record with its padding, if there is a rest, and then the
-- record that ends the stream.
pub end_stream-Emits :
    (buf : Bytes) (request_id : ℕ) (rtype : RecordType)
    → IsBuffer buf
    → (out : Bytes) × Emits (end_stream buf request_id rtype) out (done tt)
      × Stream request_id rtype (drop header_len buf) out
unfolding end_stream
end_stream-Emits buf request_id rtype b = elim (Bool-cases (ltb 0 (length buf - header_len))) [
  | inl some_byte ↦
      let (pad, padded, e) = write_last-Emits buf request_id rtype b in
      rw (some_byte) (
        _,
        bind-Emits (write_last buf request_id rtype) _ _ _ e (write_end-Emits request_id rtype),
        stream (
            one-Records request_id rtype (drop header_len buf) pad
              (omega (arith, length-drop header_len buf, ltb→lt _ _ some_byte))
              (omega (arith, length-drop header_len buf, b.has_room)) padded),
      )
  | inr none_left ↦
      rw (none_left, no_content none_left)
        (
          [] ++ Header.bytes (Header.new rtype request_id 0),
          write_end-Emits request_id rtype,
          stream nil,
        )
]
  where
    no_content : ltb 0 (length buf - header_len) ≡ false → drop header_len buf ≡ []
    no_content h = drop_all header_len buf (omega (arith, not_ltb→le _ _ h))
