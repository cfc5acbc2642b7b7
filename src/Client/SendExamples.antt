-- ===== src/Client/SendExamples.antt =====
-- client: request bodies, responses and answers at which the theorems apply.
use async_fcgi.Base.{◌≡◌, refl, arith, none, some, false, List, [], ◌∷◌, ◌++◌, Option}
use async_fcgi.Base.Result.{ok}
use async_fcgi.Bytes.{Bytes}
use async_fcgi.BufVec.Laws.{contents}
use async_fcgi.Fastcgi.Types.{RecordType}
use async_fcgi.Fastcgi.Header.{Header}
use async_fcgi.Fastcgi.Header
use async_fcgi.Fastcgi.NameValuePair.{NameValuePair}
use async_fcgi.Fastcgi.NameValuePair.Laws.{encoding, length_field}
use async_fcgi.Fastcgi.NvBody.Drain.{encodings}
use async_fcgi.Fastcgi.PairExamples.{copy_to_bytes, copy_to_bytes-CopiesBytes}
use async_fcgi.Codec.Io.{done, too_short}
use async_fcgi.Codec.Io.Emits.{Emits}
use async_fcgi.Codec.Writer.Streams.{Records, Stream}
use async_fcgi.Codec.Writer.Body.{body_bytes}
use async_fcgi.Client.Requests.{Request, Slab, get}
use async_fcgi.Client.Body.{FcgiBody}
use async_fcgi.Httpparse.{ParseResult, parsed, pending}
use async_fcgi.Client.Response.{Rounded, head_read, head_round, head_round-contents}
use async_fcgi.Fastcgi.Types.{rtype_as_u8}
use async_fcgi.Fastcgi.Record.Read.{IsFrame, frame}
use async_fcgi.Client.ConPool.Opening.{new_with_strategy, queried, new_with_strategy-limits_of}
use async_fcgi.Base.{flatten}
use async_fcgi.Client.Receive.{send_and_receive, send_and_receive_cut}
use async_fcgi.Client.Send.{send_body, send_body_other_length}
use async_fcgi.Client.ConPool.{at_first, max_conns}
use async_fcgi.Client.ConPool.Laws.{IsLimits, no_mpxs}
use async_fcgi.Client.ConPool.Values.{limits_of}

abbrev blank : Bytes
blank = 0 ∷ 0 ∷ 0 ∷ 0 ∷ 0 ∷ 0 ∷ 0 ∷ 0 ∷ []

-- A body of three bytes in two chunks, with an error and an empty chunk between them.
abbrev chunks : List (Option Bytes)
chunks = some (97 ∷ []) ∷ none ∷ some [] ∷ some (98 ∷ 99 ∷ []) ∷ []

-- The same body, of which nothing was announced.
send_body_other_length_example :
    (out : Bytes) × Emits
      (send_body blank 1 0 chunks)
      (out ++ Header.bytes (Header.new RecordType.abort_request 1 0))
      too_short
    × Records 1 RecordType.std_in (body_bytes chunks) out
send_body_other_length_example =
    send_body_other_length blank 1 0 chunks (omega arith) (omega arith) (omega arith)

-- A head of one byte; the second byte of the body has arrived in a record of its own.
abbrev parse_one : Bytes → ParseResult
parse_one [] = pending
parse_one (b ∷ bs) = parsed bs

abbrev request : Request
request = record {
  buf = record { bufs = (10 ∷ 97 ∷ []) ∷ (98 ∷ []) ∷ [] };
  waker = none;
  ended = false;
  aborted = false;
}

abbrev slab : Slab
slab = some request ∷ []

abbrev body : FcgiBody
body = record { rid = 0; done = false; was_returned = false }

head_round-contents_example :
    (r : Rounded) × (req' : Request) × (head_round parse_one 7 none body slab ≡ ok r)
    × (r.round ≡ head_read)
    × (get r.running_requests 0 ≡ some req')
    × (contents req'.buf ≡ contents (record { bufs = (98 ∷ []) ∷ [] }) ++ (97 ∷ []))
head_round-contents_example =
    head_round-contents parse_one 7 none body slab request (10 ∷ 97 ∷ []) (97 ∷ []) ((98 ∷ []) ∷ [])
      (unfold get in refl) refl (omega arith) refl refl (omega arith)

-- The answer `MAX_CONNS` is 10, `MPXS_CONNS` is 0.
abbrev ten_conns : NameValuePair
ten_conns = record { name_data = max_conns; value_data = 49 ∷ 48 ∷ [] }

-- Its record on the wire, in two reads.
abbrev answer_header : Header
answer_header = record {
  version = 1;
  rtype = RecordType.get_values_result;
  request_id = 0;
  content_length = 26;
  padding_length = 0;
}

answer-IsFrame : IsFrame answer_header (encodings (ten_conns ∷ no_mpxs ∷ [])) []
unfolding encoding length_field
answer-IsFrame = omega arith

abbrev answer_reads : List Bytes
answer_reads = (1 ∷ 10 ∷ 0 ∷ []) ∷ (0 ∷ 0 ∷ 26 ∷ 0 ∷ 0 ∷ encodings (ten_conns ∷ no_mpxs ∷ [])) ∷ []

answer-frame : flatten answer_reads ≡ frame answer_header (encodings (ten_conns ∷ no_mpxs ∷ [])) []
unfolding Header.bytes rtype_as_u8 encoding length_field
answer-frame = refl

new_with_strategy-limits_of_example :
    (out : Bytes) × Emits
      (new_with_strategy blank copy_to_bytes answer_reads)
      out
      (done (limits_of at_first (ten_conns ∷ no_mpxs ∷ [])))
    × Stream 0 RecordType.get_values (encodings (queried blank)) out
    × IsLimits (limits_of at_first (ten_conns ∷ no_mpxs ∷ []))
new_with_strategy-limits_of_example =
    new_with_strategy-limits_of blank refl copy_to_bytes copy_to_bytes-CopiesBytes answer_header []
      ten_conns (no_mpxs ∷ []) answer_reads answer-IsFrame refl (omega arith) answer-frame
      (omega arith)

-- A record with three bytes of pairs and their padding.
abbrev short_header : Header
short_header = record {
  version = 1;
  rtype = RecordType.get_values_result;
  request_id = 0;
  content_length = 3;
  padding_length = 5;
}

short-IsFrame : IsFrame short_header (1 ∷ 0 ∷ 65 ∷ []) (0 ∷ 0 ∷ 0 ∷ 0 ∷ 0 ∷ [])
short-IsFrame = omega arith

send_and_receive_cut_example : send_and_receive [] ((1 ∷ 10 ∷ 0 ∷ 0 ∷ []) ∷ [] ∷ [] ∷ []) ≡ none
unfolding Header.bytes rtype_as_u8
send_and_receive_cut_example =
    send_and_receive_cut short_header (1 ∷ 0 ∷ 65 ∷ []) (0 ∷ 0 ∷ 0 ∷ 0 ∷ 0 ∷ []) short-IsFrame
      ([] ∷ [] ∷ []) (1 ∷ 10 ∷ 0 ∷ 0 ∷ []) (0 ∷ 3 ∷ 5 ∷ 0 ∷ 1 ∷ 0 ∷ 65 ∷ 0 ∷ 0 ∷ 0 ∷ 0 ∷ 0 ∷ [])
      refl (omega arith) (omega arith) (refl, (refl, tt))
