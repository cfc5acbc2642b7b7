-- ===== src/Client/Examples.antt =====
-- client/connection.rs: requests and records at which the theorems on the connection apply.
use async_fcgi.Base.{
  Bool, ℕ, suc, ◌≡◌, ◌≢◌, refl, arith, none, some, true, false, List, [], ◌∷◌, ◌++◌,
}
use async_fcgi.Base.Result.{ok}
use async_fcgi.Bytes.{Bytes}
use async_fcgi.Fastcgi.Types.{RecordType, rtype_as_u8}
use async_fcgi.Fastcgi.Header.{Header}
use async_fcgi.Fastcgi.Header
use async_fcgi.Fastcgi.Record.{Record, Body}
use async_fcgi.Fastcgi.RecordReader.{RecordReader}
use async_fcgi.Fastcgi.RecordReader.Output.{Expect, Output}
use async_fcgi.Fastcgi.RecordReader.Output
use async_fcgi.Client.Requests.{Request, Slab, get, Distributed, parse_and_distribute}
use async_fcgi.Client.Requests.Delivery.{std_out_of, Fed}
use async_fcgi.Client.Requests.Loop.{parse_and_distribute-delivers, parse_and_distribute-ends}
use async_fcgi.Client.Connection.{
  InnerConnection, fill_ok, fill_err, other_error, resp_closed, resp_err, Polled, poll_resp,
  check_alive, alive,
}
use async_fcgi.Client.Connection.Laws.{IsGivenUp, failed, poll_resp-Lost, poll_resp_partial_header}
use async_fcgi.Client.Body.{FcgiBody}
use async_fcgi.Client.Body.Consume.{Consumed, consume, IsConsumed, consume-IsConsumed}

-- A request with two buffers of output, which is ended, and one that waits for output.
abbrev ended_request : Request
ended_request = record {
  buf = record { bufs = (97 ∷ []) ∷ (98 ∷ 99 ∷ []) ∷ [] };
  waker = none;
  ended = true;
  aborted = false;
}

abbrev waiting_request : Request
waiting_request = record {
  buf = record { bufs = [] };
  waker = some 7;
  ended = false;
  aborted = false;
}

abbrev aborted_request : Request
aborted_request = record { buf = record { bufs = [] }; waker = none; ended = false; aborted = true }

abbrev slab : Slab
slab = some waiting_request ∷ some ended_request ∷ some aborted_request ∷ []

abbrev idle : RecordReader
idle = record { current = none }

abbrev connection : InnerConnection
connection = record { running_requests = slab; fcgi_parser = idle }

-- Output for the request in the first slot, with its header and a part of its content, and the rest.
abbrev out_header : Header
out_header = record {
  version = 1;
  rtype = RecordType.std_out;
  request_id = 1;
  content_length = 3;
  padding_length = 0;
}

abbrev piece : Bytes
piece = 1 ∷ 6 ∷ 0 ∷ 1 ∷ 0 ∷ 3 ∷ 0 ∷ 0 ∷ 97 ∷ []

abbrev expected : List Output
expected =
    (1, RecordType.std_out, 97) ∷ (1, RecordType.std_out, 98) ∷ (1, RecordType.std_out, 99) ∷ []

expected-Expect : Expect none (piece ++ (98 ∷ 99 ∷ [])) expected
unfolding Header.bytes rtype_as_u8
expected-Expect = Expect.header (omega arith) Output.std_out (
    Expect.content {h = out_header} {payload = 97 ∷ 98 ∷ 99 ∷ []} {pad = []} (omega arith)
      Output.std_out Expect.done)

parse_and_distribute-delivers_example :
    (res : Distributed) × (delivered rest : List Output) × (parse_and_distribute piece slab idle
      ≡ some (ok res))
    × (expected ≡ delivered ++ rest)
    × Expect res.fcgi_parser.current (res.left ++ (98 ∷ 99 ∷ [])) rest
    × ((k : ℕ) (req : Request)
        → get slab k ≡ some req
        → req.aborted ≡ false
        → (req' : Request) × (get res.running_requests k ≡ some req')
          × Fed req (std_out_of (suc k) delivered) req')
parse_and_distribute-delivers_example =
    parse_and_distribute-delivers piece (98 ∷ 99 ∷ []) slab idle expected expected-Expect

parse_and_distribute-ends_example : parse_and_distribute piece slab idle ≢ none
parse_and_distribute-ends_example = parse_and_distribute-ends piece slab idle

abbrev out_record : ℕ → Record
out_record id = record {
  header = record out_header { request_id = id };
  body = Body.std_out (97 ∷ 98 ∷ 99 ∷ []);
}

poll_resp-Lost_example :
    (p : Polled) × (poll_resp (fill_err other_error) connection ≡ some (ok p))
    × IsGivenUp slab (resp_err other_error) p
poll_resp-Lost_example =
    poll_resp-Lost (fill_err other_error) (resp_err other_error) connection failed

poll_resp_partial_header_example :
    (p : Polled) × (poll_resp (fill_ok (1 ∷ 6 ∷ 0 ∷ [])) connection ≡ some (ok p))
    × IsGivenUp slab resp_closed p
    × (check_alive p.result ≡ alive false)
poll_resp_partial_header_example =
    poll_resp_partial_header (1 ∷ 6 ∷ 0 ∷ []) connection refl (omega arith) (omega arith)

abbrev body : ℕ → FcgiBody
body rid = record { rid = rid; done = false; was_returned = true }

-- Another task has the mutex at the second poll.
abbrev locks : List Bool
locks = true ∷ false ∷ true ∷ true ∷ true ∷ []

consume-IsConsumed_example :
    (r : Consumed) × (consume locks 5 (body 1) connection ≡ some (ok r))
    × IsConsumed 5 (body 1) ended_request r
consume-IsConsumed_example =
    consume-IsConsumed locks 5 (body 1) connection ended_request (unfold get in refl) refl refl
      (omega arith)
