-- ===== src/Codec/Writer/Body.antt =====
-- codec.rs: `data_stream` writes a body that arrives in chunks, and aborts if it is too short.
use async_fcgi.Base.{ℕ, ◌-◌, ◌≤◌, ◌<◌, ◌≡◌, refl, ap, arith, true, false, none, some, Option}
use async_fcgi.Base.{
  List, [], ◌∷◌, ◌++◌, length, length-append, append-nil, append_assoc, drop, ltb, ltb-eq-false,
  lt→ltb,
}
use async_fcgi.Bytes.{Bytes}
use async_fcgi.Fastcgi.Types.{RecordType}
use async_fcgi.Fastcgi.Header.{Header, header_len}
use async_fcgi.Fastcgi.Header
use async_fcgi.Codec.Io.{Outcome, done, too_short, ◌>>◌, ends}
use async_fcgi.Codec.Io.Emits.{Emits, ends-Emits, bind-Emits, write_whole_buf-Emits}
use async_fcgi.Codec.Writer.{body_loop, write_body, encode, FcgiType}
use async_fcgi.Codec.Writer.Streams.{
  Records, IsBuffer, Appends, bind-Appends, return-Appends, Stream, header_out,
}
use async_fcgi.Codec.Writer.Append.{append_to_stream-Appends, no_blank, blank-IsBuffer}
use async_fcgi.Codec.Writer.Data.{finish}

-- The bytes of a body: the chunks that are no errors.
abbrev pub body_bytes : List (Option Bytes) → Bytes
body_bytes [] = []
body_bytes (none ∷ chunks) = body_bytes chunks
body_bytes (some val ∷ chunks) = val ++ body_bytes chunks

-- An error behind the record that aborts its request.
pub abort-Emits :
    {A : Type 0} (blank : Bytes) (request_id : ℕ) (o : Outcome A)
    → Emits
        (encode blank (FcgiType.abort_request request_id) >> ends o)
        (Header.bytes (Header.new RecordType.abort_request request_id 0))
        o
unfolding encode
abort-Emits blank request_id o = rw (append-nil (Header.bytes abort)) at (
    bind-Emits (encode blank (FcgiType.abort_request request_id)) (λ _. ends o) (Header.bytes abort)
      [] (rw (header_out abort) (write_whole_buf-Emits (Header.bytes abort))) (ends-Emits o))
  where
    abort : Header
    abort = Header.new RecordType.abort_request request_id 0

module _ (blank : Bytes) (eight : length blank ≡ header_len) (request_id : ℕ)
    (rtype : RecordType) where
  left_of : ℕ → List (Option Bytes) → Bytes → ℕ × Bytes
  left_of len chunks buf = (len - length (body_bytes chunks), buf)

  body_loop-Appends :
      (chunks : List (Option Bytes)) (buf : Bytes) (len : ℕ)
      → IsBuffer buf
      → Appends
          (left_of len chunks)
          request_id
          rtype
          (drop header_len buf ++ body_bytes chunks)
          (body_loop blank chunks buf len request_id rtype)
  unfolding body_loop left_of
  body_loop-Appends [] buf len b =
      rw (append-nil (drop header_len buf), same_at)
        (return-Appends (λ x. (len, x)) request_id rtype buf b)
    where
      minus_zero : len - 0 ≡ len
      minus_zero = omega arith

      same_at : left_of len [] ≡ (λ x. (len, x))
      same_at = ap {B = Bytes → ℕ × Bytes} (λ n x. (n, x)) minus_zero
  body_loop-Appends (none ∷ chunks) buf len b = body_loop-Appends chunks buf len b
  body_loop-Appends (some val ∷ chunks) buf len b = rw (same_at) (
      rw (append_assoc (drop header_len buf) val (body_bytes chunks)) at (
        bind-Appends (λ x. x) (left_of (len - length val) chunks) request_id rtype
          (drop header_len buf ++ val) (body_bytes chunks) _
          (λ buf1. body_loop blank chunks buf1 (len - length val) request_id rtype)
          (append_to_stream-Appends blank eight request_id rtype val buf b)
          (λ buf1 b1. body_loop-Appends chunks buf1 (len - length val) b1)))
    where
      minus_sum :
          len - length (val ++ body_bytes chunks) ≡ (len - length val) - length (body_bytes chunks)
      minus_sum = omega (arith, length-append val (body_bytes chunks))

      same_at : left_of len (some val ∷ chunks) ≡ left_of (len - length val) chunks
      same_at = ap {B = Bytes → ℕ × Bytes} (λ n x. (n, x)) minus_sum

  start :
      (chunks : List (Option Bytes)) (len : ℕ)
      → Appends
          (left_of len chunks)
          request_id
          rtype
          (body_bytes chunks)
          (body_loop blank chunks blank len request_id rtype)
  start chunks len =
      rw (no_blank blank eight request_id rtype) at
        (body_loop-Appends chunks blank len (blank-IsBuffer blank eight request_id rtype))

  -- With eight bytes as the place of the header, `data_stream` writes a body of at least the
  -- announced length as one stream of records, as for `encode_data`, whose contents are the bytes
  -- of the chunks that are no errors, in order.
  pub write_body-Stream :
      (chunks : List (Option Bytes)) (len : ℕ)
      → len ≤ length (body_bytes chunks)
      → (out : Bytes) × Emits (write_body blank chunks request_id rtype len) out (done tt)
        × Stream request_id rtype (body_bytes chunks) out
  unfolding write_body left_of
  write_body-Stream chunks len enough =
      finish (left_of len chunks) request_id rtype (body_bytes chunks) _ _
        (λ buf. rw (none_missing) refl) (start chunks len)
    where
      none_missing : ltb 0 (len - length (body_bytes chunks)) ≡ false
      none_missing = ltb-eq-false _ _ (omega arith)

  -- With eight bytes as the place of the header, `data_stream` on a body that is shorter than
  -- announced writes records with a front of the body, then the record that aborts the request,
  -- and ends with its error.
  pub write_body_short :
      (chunks : List (Option Bytes)) (len : ℕ)
      → length (body_bytes chunks) < len
      → (sent kept out : Bytes) × Emits
          (write_body blank chunks request_id rtype len)
          (out ++ Header.bytes (Header.new RecordType.abort_request request_id 0))
          too_short
        × Records request_id rtype sent out
        × (body_bytes chunks ≡ sent ++ kept)
  unfolding write_body left_of
  write_body_short chunks len short =
      let a = start chunks len in
      (
        a.sent,
        drop header_len a.buf,
        a.out,
        bind-Emits _ _ a.out _ a.emits (rw (some_missing) (abort-Emits blank request_id too_short)),
        a.records,
        a.same_data,
      )
    where
      some_missing : ltb 0 (len - length (body_bytes chunks)) ≡ true
      some_missing = lt→ltb _ _ (omega arith)
