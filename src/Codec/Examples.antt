-- ===== src/Codec/Examples.antt =====
-- codec.rs: inputs at which the theorems on the writer apply.
use async_fcgi.Base.{◌≡◌, refl, arith, none, some, List, [], ◌∷◌, ◌++◌, flatten}
use async_fcgi.Base.Result.{ok}
use async_fcgi.Bytes.{Bytes}
use async_fcgi.Fastcgi.Types.{RecordType}
use async_fcgi.Fastcgi.Header.{Header}
use async_fcgi.Fastcgi.Header
use async_fcgi.Fastcgi.NameValuePair.{NameValuePair}
use async_fcgi.Fastcgi.Record.{Record}
use async_fcgi.Fastcgi.RecordReader.{RecordReader}
use async_fcgi.Fastcgi.RecordReader
use async_fcgi.Fastcgi.RecordReader.Output
use async_fcgi.Fastcgi.RecordReader.Stream.{receive, all_outputs}
use async_fcgi.Fastcgi.Types.{ProtoStatus, status_as_u8}
use async_fcgi.Fastcgi.Record.{Body, read}
use async_fcgi.Codec.Writer.{encode, FcgiType}
use async_fcgi.Codec.Writer.Single.{encode_end_request-read}
use async_fcgi.Codec.Io.{done, too_short}
use async_fcgi.Codec.Io.Emits.{Emits}
use async_fcgi.Codec.Writer.{encode_data, write_body}
use async_fcgi.Codec.Writer.Streams.{Records, Stream}
use async_fcgi.Codec.Writer.Body.{body_bytes, write_body-Stream, write_body_short}
use async_fcgi.Codec.Writer.Received.{outputs_of, encode_data-received}

abbrev blank : Bytes
blank = 0 ∷ 0 ∷ 0 ∷ 0 ∷ 0 ∷ 0 ∷ 0 ∷ 0 ∷ []

abbrev abc : Bytes
abc = 97 ∷ 98 ∷ 99 ∷ []

abbrev pairs : List NameValuePair
pairs =
    record { name_data = 65 ∷ []; value_data = abc }
    ∷ record { name_data = 66 ∷ []; value_data = [] }
    ∷ []

encode_data-received_example :
    (out : Bytes) × Emits (encode_data blank 1 RecordType.std_out abc) out (done tt)
    × ((pieces : List Bytes)
        → flatten pieces ≡ out
        → (recs : List Record) × (receive RecordReader.new [] pieces
            ≡ some (ok (recs, RecordReader.new, [])))
          × (all_outputs recs ≡ outputs_of 1 RecordType.std_out abc))
encode_data-received_example =
    encode_data-received blank 1 RecordType.std_out abc refl (omega arith) Output.std_out

write_body-Stream_example :
    (out : Bytes) × Emits
      (write_body blank (some abc ∷ none ∷ some abc ∷ []) 1 RecordType.std_in 6)
      out
      (done tt)
    × Stream 1 RecordType.std_in (body_bytes (some abc ∷ none ∷ some abc ∷ [])) out
write_body-Stream_example =
    write_body-Stream blank refl 1 RecordType.std_in (some abc ∷ none ∷ some abc ∷ []) 6
      (omega arith)

write_body_short_example :
    (sent kept out : Bytes) × Emits
      (write_body blank (some abc ∷ []) 1 RecordType.std_in 4)
      (out ++ Header.bytes (Header.new RecordType.abort_request 1 0))
      too_short
    × Records 1 RecordType.std_in sent out
    × (body_bytes (some abc ∷ []) ≡ sent ++ kept)
write_body_short_example =
    write_body_short blank refl 1 RecordType.std_in (some abc ∷ []) 4 (omega arith)

encode_end_request-read_example :
    (out : Bytes) × Emits
      (encode blank (FcgiType.end_request 1 70000 (status_as_u8 ProtoStatus.overloaded)))
      out
      (done tt)
    × (read (out ++ (7 ∷ []))
        ≡ ok (
          some (record {
            header = Header.new RecordType.end_request 1 8;
            body =
                Body.end_request
                  (record { app_status = 70000; protocol_status = ProtoStatus.overloaded });
          }),
          7 ∷ [],
        ))
encode_end_request-read_example =
    encode_end_request-read blank 1 70000 ProtoStatus.overloaded (7 ∷ []) (omega arith)
      (omega arith)
