-- ===== src/Codec/Writer/Chunk.antt =====
-- codec.rs: `flush_data_chunk` writes records at once and keeps nothing.
use async_fcgi.Base.{ℕ, zero, suc, ◌+◌, ◌-◌, ◌≤◌, ◌<◌, ◌≡◌, refl, sym, arith, false, inl, inr}
use async_fcgi.Base.{
  Bool-cases, [], ◌++◌, length, append-nil, append_assoc, drop, take, ltb, ltb→lt, not_ltb→le, ◌==◌,
}
use async_fcgi.Base.{take-append-drop, length-take, length-drop}
use async_fcgi.Bytes.{Bytes, as_u16}
use async_fcgi.Fastcgi.Types.{RecordType}
use async_fcgi.Fastcgi.Header.{Header, header_len, padding, padding-bounds, length-bytes}
use async_fcgi.Fastcgi.Header
use async_fcgi.Fastcgi.Record.Read.{frame}
use async_fcgi.Codec.Io.{done, M, ◌>>=◌, ◌>>◌, write_whole_buf}
use async_fcgi.Codec.Io.Emits.{Emits, return-Emits, bind-Emits, write_whole_buf-Emits}
use async_fcgi.Codec.Writer.{buf_len, flush_loop, flush_last, flush_data_chunk}
use async_fcgi.Codec.Writer.Streams.{
  max_content, Records, nil, cons, one-Records, Records-append, Stream, stream, header_out,
}
use async_fcgi.Codec.Writer.End.{slice-take}

-- What the loop leaves for the last record: something, if there was anything, that fits.
record Flushed (request_id : ℕ) (rtype : RecordType) (chunk : Bytes) (m : M Bytes) : Type 0 where
  sent : Bytes
  out : Bytes
  last : Bytes
  emits : Emits m out (done last)
  records : Records request_id rtype sent out
  same_data : chunk ≡ sent ++ last
  last_fits : length last ≤ max_content
  last_left : 0 < length chunk → 0 < length last

flush_round :
    (part rest : Bytes) (request_id : ℕ) (rtype : RecordType) (m : M Bytes)
    → length part ≡ max_content
    → 0 < length rest
    → Flushed request_id rtype rest m
    → Flushed request_id rtype (part ++ rest) (
        write_whole_buf
          (Header.write_into (Header.new rtype request_id (as_u16 (buf_len - header_len))) [])
        >> (write_whole_buf part >> m))
flush_round part rest request_id rtype m full more f = record {
  sent = part ++ f.sent;
  out = Header.write_into h [] ++ (part ++ f.out);
  last = f.last;
  emits =
      bind-Emits (write_whole_buf (Header.write_into h [])) _ (Header.write_into h [])
        (part ++ f.out) (write_whole_buf-Emits (Header.write_into h []))
        (bind-Emits (write_whole_buf part) _ part f.out (write_whole_buf-Emits part) f.emits);
  records = rw (same_out) at (
      cons part [] (omega (arith, full)) (omega (arith, full)) (rw (full) (unfold padding in refl))
        f.records);
  same_data = rw (f.same_data) (sym (append_assoc part f.sent f.last));
  last_fits = f.last_fits;
  last_left = λ _. f.last_left more;
}
  where
    h : Header
    h = Header.new rtype request_id max_content

    same_out :
        frame (Header.new rtype request_id (length part)) part [] ++ f.out
        ≡ Header.write_into h [] ++ (part ++ f.out)
    same_out = rw (full, header_out h, append-nil part) (append_assoc (Header.bytes h) part f.out)

flush_loop-Flushed :
    (fuel : ℕ) (chunk : Bytes) (request_id : ℕ) (rtype : RecordType)
    → length chunk < fuel
    → Flushed request_id rtype chunk (flush_loop fuel chunk request_id rtype)
unfolding flush_loop
flush_loop-Flushed zero chunk request_id rtype h = absurd (omega arith)
flush_loop-Flushed (suc fuel) chunk request_id rtype h =
    elim (Bool-cases (ltb (buf_len - header_len) (length chunk))) [
      | inl over ↦
          let more = ltb→lt _ _ over in
          rw (over) (
            rw (take-append-drop max_content chunk) at (
              flush_round (take max_content chunk) (drop max_content chunk) request_id rtype _
                (length-take max_content chunk (omega arith))
                (omega (arith, length-drop max_content chunk))
                (flush_loop-Flushed fuel (drop max_content chunk) request_id rtype
                  (omega (arith, length-drop max_content chunk)))))
      | inr fits ↦ rw (fits) (record {
        sent = [];
        out = [];
        last = chunk;
        emits = return-Emits chunk;
        records = nil;
        same_data = refl;
        last_fits = not_ltb→le _ _ fits;
        last_left = λ p. p;
      })
    ]

flush_last-Emits :
    (chunk : Bytes) (request_id : ℕ) (rtype : RecordType)
    → 0 < length chunk
    → length chunk ≤ max_content
    → (out : Bytes) × Emits (flush_last chunk request_id rtype) out (done tt)
      × Records request_id rtype chunk out
unfolding flush_last Header.get_padding Header.new
flush_last-Emits chunk request_id rtype some_byte small = (
  frame h chunk pad,
  rw (as_length, not_empty, header_out h, slice-take head (padding (length chunk)) pad_fits)
      (bind-Emits (write_whole_buf head) _ head (chunk ++ pad) (write_whole_buf-Emits head) (
        bind-Emits (write_whole_buf chunk) _ chunk pad (write_whole_buf-Emits chunk)
          (write_whole_buf-Emits pad))),
  one-Records request_id rtype chunk pad some_byte small (length-take _ _ pad_fits),
)
  where
    h : Header
    h = Header.new rtype request_id (length chunk)

    head : Bytes
    head = Header.bytes h

    pad : Bytes
    pad = take (padding (length chunk)) head

    as_length : as_u16 (length chunk) ≡ length chunk
    as_length = omega arith

    not_empty : (length chunk == 0) ≡ false
    not_empty = ground arith

    pad_fits : padding (length chunk) ≤ length head
    pad_fits = omega (arith, padding-bounds (length chunk), length-bytes h)

flush_rest :
    (chunk : Bytes) (request_id : ℕ) (rtype : RecordType) (m : M Bytes)
    → 0 < length chunk
    → Flushed request_id rtype chunk m
    → (out : Bytes) × Emits (m >>= λ last. flush_last last request_id rtype) out (done tt)
      × Records request_id rtype chunk out
flush_rest chunk request_id rtype m some_byte f =
    let (out, e, r) =
      flush_last-Emits f.last request_id rtype (f.last_left some_byte) f.last_fits in
    (
      f.out ++ out,
      bind-Emits m _ f.out out f.emits e,
      rw (f.same_data) (Records-append f.records r),
    )

-- `flush_data_chunk` writes a chunk with at least one byte as records of this type and request,
-- none of them empty or over 65528 bytes, with their padding, whose contents make up the chunk,
-- and leaves the stream open. If the socket fails or blocks, a front of just these bytes is
-- written and the call does not end well.
pub flush_data_chunk-Records :
    (chunk : Bytes) (request_id : ℕ) (rtype : RecordType)
    → 0 < length chunk
    → (out : Bytes) × Emits (flush_data_chunk chunk request_id rtype) out (done tt)
      × Records request_id rtype chunk out
unfolding flush_data_chunk
flush_data_chunk-Records chunk request_id rtype some_byte =
    flush_rest chunk request_id rtype _ some_byte
      (flush_loop-Flushed (length chunk + 1) chunk request_id rtype (omega arith))

-- `flush_data_chunk` writes for an empty chunk a whole stream without data: the one empty record
-- that ends a stream.
pub flush_data_chunk_empty :
    (request_id : ℕ) (rtype : RecordType)
    → (out : Bytes) × Emits (flush_data_chunk [] request_id rtype) out (done tt)
      × Stream request_id rtype [] out
unfolding flush_data_chunk flush_loop flush_last
flush_data_chunk_empty request_id rtype = (
  Header.bytes (Header.new rtype request_id 0),
  rw (header_out (Header.new rtype request_id 0)) (write_whole_buf-Emits _),
  stream nil,
)
