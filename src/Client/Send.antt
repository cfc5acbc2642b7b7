-- ===== src/Client/Send.antt =====
-- client/connection.rs: `send_body`, which sends the body of a request as its STDIN stream.
use async_fcgi.Base.{ℕ, ◌+◌, ◌-◌, ◌%◌, ◌^◌, ◌<◌, ◌≡◌, ◌≢◌, arith, true, false, none, some, Option}
use async_fcgi.Base.{
  List, [], ◌∷◌, ◌++◌, length, length-append, append-nil, ltb, lt→ltb, ltb-eq-false, if◌then◌else◌,
}
use async_fcgi.Bytes.{Bytes}
use async_fcgi.Fastcgi.Types.{RecordType}
use async_fcgi.Fastcgi.Header.{Header}
use async_fcgi.Fastcgi.Header
use async_fcgi.Codec.Io.{done, too_short, M, ◌>>=◌, ◌>>◌, return, ends}
use async_fcgi.Codec.Io.Emits.{Emits, return-Emits, bind-Emits}
use async_fcgi.Codec.Writer.{flush_data_chunk, encode, FcgiType}
use async_fcgi.Codec.Writer.Streams.{Records, nil, Records-append, Records-Stream, Stream}
use async_fcgi.Codec.Writer.Chunk.{flush_data_chunk-Records, flush_data_chunk_empty}
use async_fcgi.Codec.Writer.Body.{body_bytes, abort-Emits}

-- `-=` on a `usize` of 64 bits, in the release build.
unfoldable pub sub_assign : ℕ → ℕ → ℕ
sub_assign len s = (len + 2 ^ 64 - s) % 2 ^ 64

-- The loop over the chunks of the body: what is left of `len`. `none` is a chunk that is an error.
unfoldable pub send_loop : List (Option Bytes) → ℕ → ℕ → M ℕ
unfolding sub_assign
send_loop [] len request_id = return len
send_loop (none ∷ chunks) len request_id = send_loop chunks len request_id
send_loop (some [] ∷ chunks) len request_id = send_loop chunks len request_id
send_loop (some (b ∷ bs) ∷ chunks) len request_id = do
  flush_data_chunk (b ∷ bs) request_id RecordType.std_in
  send_loop chunks (sub_assign len (length (b ∷ bs))) request_id

-- `blank` is passed to `encode`, which does not use it for an abort.
unfoldable pub send_body : Bytes → ℕ → ℕ → List (Option Bytes) → M (Unit {0})
unfolding send_loop
send_body blank request_id len chunks = do
  left ← send_loop chunks len request_id
  if ltb 0 left
      then (do encode blank (FcgiType.abort_request request_id); ends too_short)
      else flush_data_chunk [] request_id RecordType.std_in

sub_assign-sub_assign :
    (len a b : ℕ)
    → len < 2 ^ 64
    → a + b < 2 ^ 64
    → sub_assign (sub_assign len a) b ≡ sub_assign len (a + b)
unfolding sub_assign
sub_assign-sub_assign len a b h k = omega arith

sub_assign-lt : (len a : ℕ) → sub_assign len a < 2 ^ 64
unfolding sub_assign
sub_assign-lt len a = omega arith

send_loop-Records :
    (chunks : List (Option Bytes)) (len request_id : ℕ)
    → len < 2 ^ 64
    → length (body_bytes chunks) < 2 ^ 64
    → (out : Bytes) × Emits
        (send_loop chunks len request_id)
        out
        (done (sub_assign len (length (body_bytes chunks))))
      × Records request_id RecordType.std_in (body_bytes chunks) out
unfolding send_loop
send_loop-Records [] len request_id h k = ([], rw (none_sent) (return-Emits len), nil)
  where
    none_sent : sub_assign len 0 ≡ len
    none_sent = unfold sub_assign in omega arith
send_loop-Records (none ∷ chunks) len request_id h k = send_loop-Records chunks len request_id h k
send_loop-Records (some [] ∷ chunks) len request_id h k =
    send_loop-Records chunks len request_id h k
send_loop-Records (some (b ∷ bs) ∷ chunks) len request_id h k =
    let n : ℕ = length (b ∷ bs) in
    let total = length-append (b ∷ bs) (body_bytes chunks) in
    let (out1, e1, r1) =
      flush_data_chunk-Records (b ∷ bs) request_id RecordType.std_in (omega arith) in
    let (out2, e2, r2) =
      send_loop-Records chunks (sub_assign len n) request_id (sub_assign-lt len n)
        (omega (arith, total)) in
    (
      out1 ++ out2,
      rw
          (
            total,
            ← (sub_assign-sub_assign len n (length (body_bytes chunks)) h (omega (arith, total))),
          )
          (bind-Emits _ _ out1 out2 e1 e2),
      Records-append r1 r2,
    )

-- A request body whose chunks that are no errors have exactly the announced length, below 2^64,
-- is sent as one stream of STDIN: records of this request, none of them empty or over 65528
-- bytes, with their padding, whose contents are the bytes of the chunks in order, and one empty
-- record at the end. If the socket fails or blocks, a front of just these bytes is written and
-- the call does not end well.
pub send_body-Stream :
    (blank : Bytes) (request_id len : ℕ) (chunks : List (Option Bytes))
    → len < 2 ^ 64
    → length (body_bytes chunks) ≡ len
    → (out : Bytes) × Emits (send_body blank request_id len chunks) out (done tt)
      × Stream request_id RecordType.std_in (body_bytes chunks) out
unfolding send_body
send_body-Stream blank request_id len chunks h same =
    let (out1, e1, r1) = send_loop-Records chunks len request_id h (omega arith) in
    let (out2, e2, s2) = flush_data_chunk_empty request_id RecordType.std_in in
    (
      out1 ++ out2,
      bind-Emits _ _ out1 out2 e1 (rw (none_left) e2),
      rw (append-nil (body_bytes chunks)) at (Records-Stream r1 s2),
    )
  where
    none_left : ltb 0 (sub_assign len (length (body_bytes chunks))) ≡ false
    none_left = unfold sub_assign in rw (same) (ltb-eq-false _ _ (omega arith))

-- In the release build, a request body of any other length below 2^64 than the announced one,
-- shorter or longer, is written whole as records of STDIN, and then its request is aborted and
-- the call ends with the error for a short body: beyond the announced length the counter wraps
-- around.
pub send_body_other_length :
    (blank : Bytes) (request_id len : ℕ) (chunks : List (Option Bytes))
    → len < 2 ^ 64
    → length (body_bytes chunks) < 2 ^ 64
    → length (body_bytes chunks) ≢ len
    → (out : Bytes) × Emits
        (send_body blank request_id len chunks)
        (out ++ Header.bytes (Header.new RecordType.abort_request request_id 0))
        too_short
      × Records request_id RecordType.std_in (body_bytes chunks) out
unfolding send_body
send_body_other_length blank request_id len chunks h k other =
    let (out, e, r) = send_loop-Records chunks len request_id h k in
    (out, bind-Emits _ _ out _ e (rw (some_left) (abort-Emits blank request_id too_short)), r)
  where
    some_left : ltb 0 (sub_assign len (length (body_bytes chunks))) ≡ true
    some_left = unfold sub_assign in lt→ltb _ _ (grind arith)
