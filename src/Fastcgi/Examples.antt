-- ===== src/Fastcgi/Examples.antt =====
-- fastcgi.rs and bufvec.rs: inputs at which the theorems on the records apply.
use async_fcgi.Base.{◌≡◌, refl, arith, none, some, List, [], ◌∷◌, ◌++◌}
use async_fcgi.Base.Result.{ok, panic, ◌>>=◌}
use async_fcgi.Bytes.{Bytes}
use async_fcgi.Fastcgi.Types.{RecordType, rtype_as_u8}
use async_fcgi.Fastcgi.Header.{Header}
use async_fcgi.Fastcgi.Header
use async_fcgi.Fastcgi.Record.{Record, read, parse_body}
use async_fcgi.Fastcgi.Record.Read.{IsFrame, frame, read-frame}
use async_fcgi.Fastcgi.RecordReader.{RecordReader}
use async_fcgi.Fastcgi.RecordReader
use async_fcgi.Fastcgi.RecordReader.Output.{Expect, Output}
use async_fcgi.Fastcgi.RecordReader.Output
use async_fcgi.Fastcgi.RecordReader.Stream.{receive, receive-stream, all_outputs}
use async_fcgi.Fastcgi.RecordReader.EndRequest.{read_end_request_split}

-- A record of output of the request 1, of three bytes with five bytes of padding.
abbrev pub out_header : Header
out_header = record {
  version = 1;
  rtype = RecordType.std_out;
  request_id = 1;
  content_length = 3;
  padding_length = 5;
}

abbrev out_padding : Bytes
out_padding = 0 ∷ 0 ∷ 0 ∷ 0 ∷ 0 ∷ []

abbrev pub abc : Bytes
abc = 97 ∷ 98 ∷ 99 ∷ []

out-IsFrame : IsFrame out_header abc out_padding
out-IsFrame = omega arith

-- The record, cut inside its header, inside its content and inside its padding.
abbrev pieces : List Bytes
pieces =
    (1 ∷ 6 ∷ [])
    ∷ (0 ∷ 1 ∷ 0 ∷ 3 ∷ 5 ∷ 0 ∷ 97 ∷ [])
    ∷ (98 ∷ 99 ∷ 0 ∷ [])
    ∷ (0 ∷ 0 ∷ 0 ∷ 0 ∷ [])
    ∷ []

abbrev expected : List Output
expected =
    (1, RecordType.std_out, 97) ∷ (1, RecordType.std_out, 98) ∷ (1, RecordType.std_out, 99) ∷ []

receive-stream_example :
    (recs : List Record) × (receive RecordReader.new [] pieces
      ≡ some (ok (recs, RecordReader.new, [])))
    × (all_outputs recs ≡ expected)
unfolding Header.bytes rtype_as_u8
receive-stream_example = receive-stream pieces expected (
    Expect.header (omega arith) Output.std_out (
      Expect.content {h = out_header} {payload = abc} {pad = out_padding} out-IsFrame Output.std_out
        Expect.done))

read-frame_example : read (frame out_header abc out_padding ++ (7 ∷ [])) ≡ (
    parse_body abc RecordType.std_out >>= λ b.
    ok (some (record { header = out_header; body = b }), 7 ∷ []))
read-frame_example = read-frame out_header abc out_padding (7 ∷ []) out-IsFrame

-- The end of a request, of which five bytes of eight have arrived.
abbrev end_header : Header
end_header = record {
  version = 1;
  rtype = RecordType.end_request;
  request_id = 1;
  content_length = 8;
  padding_length = 0;
}

read_end_request_split_example :
    (RecordReader.read
        (record { current = none })
        (Header.bytes end_header ++ (0 ∷ 0 ∷ 0 ∷ 0 ∷ 0 ∷ []))
      ≡ panic)
    × (RecordReader.read (record { current = some end_header }) (0 ∷ 0 ∷ 0 ∷ 0 ∷ 0 ∷ []) ≡ panic)
read_end_request_split_example =
    read_end_request_split end_header (0 ∷ 0 ∷ 0 ∷ 0 ∷ 0 ∷ []) (omega arith) refl refl (omega arith)
      (omega arith)
