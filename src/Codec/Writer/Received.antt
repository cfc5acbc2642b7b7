-- ===== src/Codec/Writer/Received.antt =====
-- codec.rs and fastcgi.rs: what `FCGIWriter` writes as output, `RecordReader` reads.
use async_fcgi.Base.{ℕ, ◌≤◌, ◌≡◌, refl, ap, arith, List, [], ◌∷◌, ◌++◌, map, none, some, flatten}
use async_fcgi.Base.{length, append-nil, append_assoc}
use async_fcgi.Base.Result.{ok}
use async_fcgi.Bytes.{Bytes, IsU16}
use async_fcgi.Fastcgi.Types.{RecordType}
use async_fcgi.Fastcgi.Header.{Header, header_len, padding, padding-bounds}
use async_fcgi.Fastcgi.Header
use async_fcgi.Fastcgi.Record.{Record}
use async_fcgi.Fastcgi.Record.Read.{IsFrame, frame}
use async_fcgi.Fastcgi.RecordReader.{RecordReader}
use async_fcgi.Fastcgi.RecordReader
use async_fcgi.Fastcgi.RecordReader.Output.{IsOutput, Output, Expect}
use async_fcgi.Fastcgi.RecordReader.Stream.{receive, receive-stream, all_outputs}
use async_fcgi.Codec.Io.{done}
use async_fcgi.Codec.Io.Emits.{Emits}
use async_fcgi.Codec.Writer.{encode_data}
use async_fcgi.Codec.Writer.Streams.{max_content, Records, nil, cons, Stream, stream}
use async_fcgi.Codec.Writer.Data.{encode_data-Stream}

-- The output of one stream of one request.
abbrev pub outputs_of : ℕ → RecordType → Bytes → List Output
outputs_of request_id rtype = map λ b. (request_id, rtype, b)

outputs_of-append :
    (request_id : ℕ) (rtype : RecordType) (xs ys : Bytes)
    → outputs_of request_id rtype (xs ++ ys)
      ≡ outputs_of request_id rtype xs ++ outputs_of request_id rtype ys
outputs_of-append request_id rtype [] ys = refl
outputs_of-append request_id rtype (x ∷ xs) ys =
    ap (◌∷◌ (request_id, rtype, x)) (outputs_of-append request_id rtype xs ys)

module _ (request_id : ℕ) (rtype : RecordType) (u : IsU16 request_id) (o : IsOutput rtype) where
  new-IsFrame :
      (content pad : Bytes)
      → length content ≤ max_content
      → length pad ≡ padding (length content)
      → IsFrame (Header.new rtype request_id (length content)) content pad
  unfolding Header.new
  new-IsFrame content pad small padded = omega (arith, padding-bounds (length content))

  Expect-record :
      (content pad behind : Bytes) (out : List Output)
      → length content ≤ max_content
      → length pad ≡ padding (length content)
      → Expect none behind out
      → Expect none
          (Header.bytes (Header.new rtype request_id (length content))
            ++ (content ++ (pad ++ behind)))
          (outputs_of request_id rtype content ++ out)
  unfolding Header.new
  Expect-record content pad behind out small padded ex =
      let f = new-IsFrame content pad small padded in Expect.header f.wire o (Expect.content f o ex)

  Records-Expect :
      (content out behind : Bytes) (outs : List Output)
      → Records request_id rtype content out
      → Expect none behind outs
      → Expect none (out ++ behind) (outputs_of request_id rtype content ++ outs)
  Records-Expect _ _ behind outs nil ex = ex
  Records-Expect _ _ behind outs
        (cons content pad {rest = rest} {out = out} some_byte small padded r) ex =
      rw (same_bytes, same_outs)
        (Expect-record content pad (out ++ behind) (outputs_of request_id rtype rest ++ outs) small
          padded (Records-Expect rest out behind outs r ex))
    where
      same_bytes :
          (frame (Header.new rtype request_id (length content)) content pad ++ out) ++ behind
          ≡ Header.bytes (Header.new rtype request_id (length content))
            ++ (content ++ (pad ++ (out ++ behind)))
      same_bytes = simp append_assoc

      same_outs :
          outputs_of request_id rtype (content ++ rest) ++ outs
          ≡ outputs_of request_id rtype content ++ (outputs_of request_id rtype rest ++ outs)
      same_outs = rw (outputs_of-append request_id rtype content rest) (
          append_assoc (outputs_of request_id rtype content) (outputs_of request_id rtype rest)
            outs)

  Stream-Expect :
      (content out : Bytes)
      → Stream request_id rtype content out
      → Expect none out (outputs_of request_id rtype content)
  Stream-Expect content _ (stream {out = out} r) =
      rw (append-nil (outputs_of request_id rtype content)) at
        (Records-Expect content out (Header.bytes (Header.new rtype request_id 0)) [] r the_end)
    where
      the_end : Expect none (Header.bytes (Header.new rtype request_id 0)) []
      the_end =
          rw (append-nil (Header.bytes (Header.new rtype request_id 0))) at
            (Expect-record [] [] [] [] (omega arith) (unfold padding in refl) Expect.done)

-- For a request id of 16 bits and a stream of output, and eight bytes as the place of the header,
-- `encode_data` writes bytes, and ends well on every socket that takes them, such that however
-- these bytes are cut into pieces, a new reader hands out exactly the data, for the right request
-- and stream, and is then between two records with no byte left.
pub encode_data-received :
    (blank : Bytes) (request_id : ℕ) (rtype : RecordType) (bytes : Bytes)
    → length blank ≡ header_len
    → IsU16 request_id
    → IsOutput rtype
    → (out : Bytes) × Emits (encode_data blank request_id rtype bytes) out (done tt)
      × ((pieces : List Bytes)
          → flatten pieces ≡ out
          → (recs : List Record) × (receive RecordReader.new [] pieces
              ≡ some (ok (recs, RecordReader.new, [])))
            × (all_outputs recs ≡ outputs_of request_id rtype bytes))
encode_data-received blank request_id rtype bytes eight u o =
    let (out, e, s) = encode_data-Stream blank eight request_id rtype bytes in
    (
      out,
      e,
      λ pieces same.
          receive-stream pieces (outputs_of request_id rtype bytes)
            (rw (same) (Stream-Expect request_id rtype u o bytes out s)),
    )
