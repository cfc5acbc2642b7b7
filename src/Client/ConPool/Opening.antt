-- ===== src/Client/ConPool/Opening.antt =====
-- client/con_pool.rs: `new_with_strategy` asks the application for its limits.
use async_fcgi.Base.{ℕ, ◌<◌, ◌≡◌, refl, ap, arith, ◌^◌, lt→ltb, Option, none, some}
use async_fcgi.Base.{List, [], ◌∷◌, ◌++◌, length, length-append, append-nil, flatten, All}
use async_fcgi.Base.Result.{Res, ok, panic}
use async_fcgi.Bytes.{Bytes, as_u16}
use async_fcgi.BufVec.{BufList}
use async_fcgi.BufVec
use async_fcgi.Fastcgi.Types.{RecordType}
use async_fcgi.Fastcgi.Header.{Header, header_len}
use async_fcgi.Fastcgi.Header
use async_fcgi.Fastcgi.NameValuePair.{NameValuePair}
use async_fcgi.Fastcgi.NameValuePair.Laws.{IsShort}
use async_fcgi.Fastcgi.NvBody.{NvBody, from_bytes}
use async_fcgi.Fastcgi.NvBody.Laws.{IsValid}
use async_fcgi.Fastcgi.NvBody.Drain.{CopiesBytes, encodings, encoding-pos}
use async_fcgi.Fastcgi.Record.{Record, Body, mgmt_request_id, parse_body}
use async_fcgi.Fastcgi.Record.Read.{IsFrame, frame}
use async_fcgi.Codec.Io.{M, done, blocked, panicked, stuck, ◌>>=◌, ◌>>◌, return, ends}
use async_fcgi.Codec.Io.Emits.{Emits, same-Emits, bind-Emits, return-Emits}
use async_fcgi.Codec.Writer.{kv_stream, add_kv, flush, encode_kvp}
use async_fcgi.Codec.Writer.Streams.{Stream}
use async_fcgi.Codec.Writer.Pairs.{IsEncodable, encode_kvp-Stream}
use async_fcgi.Codec.Writer.AddAll.{pair, Puts-nil, bind-Puts, add_kv-Puts, Puts-encode_kvp}
use async_fcgi.Client.ConPool.{Limits, at_first, negotiate, max_conns, max_reqs, mpxs_conns}
use async_fcgi.Client.ConPool.Laws.{IsLimits, settle, negotiate-settle}
use std.Path.{subst}
use async_fcgi.Client.ConPool.Values.{limits_of, settle-limits_of}
use async_fcgi.Client.Receive.{send_and_receive, send_and_receive-frame}

-- The body of a record that is received with these bytes.
abbrev body_of : Bytes → NvBody
body_of bytes = record { pairs = record { bufs = bytes ∷ [] }; len = length bytes }

from_bytes-body_of :
    (bytes : Bytes) → 0 < length bytes → length bytes < 2 ^ 16 → from_bytes bytes ≡ body_of bytes
unfolding from_bytes BufVec.new BufVec.push
from_bytes-body_of bytes some_byte small = rw (as_length, lt→ltb 0 (length bytes) some_byte) refl
  where
    as_length : as_u16 (length bytes) ≡ length bytes
    as_length = omega arith

module _ (blank : Bytes) where
  -- The query of the values.
  put_query : M (Unit {0})
  put_query = do
    kvw1 ← add_kv blank (kv_stream blank mgmt_request_id RecordType.get_values) max_conns []
    kvw2 ← add_kv blank kvw1 max_reqs []
    kvw3 ← add_kv blank kvw2 mpxs_conns []
    flush blank kvw3

  -- The answer is read and settles the limits; reading that goes on without end blocks.
  limits_from : (BufList → ℕ → Res Bytes) → Option (Res (List Record)) → M Limits
  limits_from copy_to_bytes none = ends blocked
  limits_from copy_to_bytes (some panic) = ends panicked
  limits_from copy_to_bytes (some (ok recs)) = elim (negotiate copy_to_bytes at_first recs) [
    | none ↦ ends stuck
    | some panic ↦ ends panicked
    | some (ok l) ↦ return l
  ]

  -- `new_with_strategy` up to the connection that it opens: `reads` is what the reads of the socket
  -- give.
  pub new_with_strategy : (BufList → ℕ → Res Bytes) → List Bytes → M Limits
  unfolding put_query limits_from
  new_with_strategy copy_to_bytes reads =
      put_query >> limits_from copy_to_bytes (send_and_receive [] reads)

  -- The pairs of the query: three names without values.
  abbrev pub queried : List NameValuePair
  queried = pair max_conns [] ∷ pair max_reqs [] ∷ pair mpxs_conns [] ∷ []

  put_query-encode_kvp : put_query ≡ encode_kvp blank mgmt_request_id RecordType.get_values queried
  unfolding put_query
  put_query-encode_kvp = Puts-encode_kvp blank mgmt_request_id RecordType.get_values queried _ (
      bind-Puts blank (pair max_conns [] ∷ []) _ (flush blank) (λ w. add_kv blank w max_conns []) _
        (add_kv-Puts blank max_conns [])
        (bind-Puts blank (pair max_reqs [] ∷ []) _ (flush blank) (λ w. add_kv blank w max_reqs []) _
          (add_kv-Puts blank max_reqs [])
          (bind-Puts blank (pair mpxs_conns [] ∷ []) [] (flush blank)
            (λ w. add_kv blank w mpxs_conns []) (flush blank) (add_kv-Puts blank mpxs_conns [])
            (Puts-nil blank (flush blank)))))

  queried-IsEncodable : All IsEncodable queried
  queried-IsEncodable = omega arith

  module _ (eight : length blank ≡ header_len) (copy_to_bytes : BufList → ℕ → Res Bytes)
      (copies : CopiesBytes copy_to_bytes) where
    new_with_strategy-settle :
        (h : Header) (pad : Bytes) (p : NameValuePair) (ps : List NameValuePair)
        (reads : List Bytes)
        → IsFrame h (encodings (p ∷ ps)) pad
        → h.rtype ≡ RecordType.get_values_result
        → All IsShort (p ∷ ps)
        → flatten reads ≡ frame h (encodings (p ∷ ps)) pad
        → All (λ d. 0 < length d) reads
        → (out : Bytes) × Emits
            (new_with_strategy copy_to_bytes reads)
            out
            (done (settle at_first (p ∷ ps)))
          × Stream mgmt_request_id RecordType.get_values (encodings queried) out
          × IsLimits (settle at_first (p ∷ ps))
    unfolding new_with_strategy limits_from
    new_with_strategy-settle h pad p ps reads f is_result short same some_bytes =
        let (out, e, st) =
          encode_kvp-Stream blank eight mgmt_request_id RecordType.get_values queried
            queried-IsEncodable in
        let (settled, bounded) =
          negotiate-settle copy_to_bytes copies at_first answer (body_of bytes) (p ∷ ps) refl
            body_of-IsValid (some_byte, tt) (append-nil bytes) short at_first-IsLimits in
        (
          out,
          rw (append-nil out) at (
              bind-Emits put_query (λ _. limits_from copy_to_bytes (send_and_receive [] reads)) out
                [] (same-Emits put_query-encode_kvp e) (settled-Emits settled)),
          st,
          bounded,
        )
      where
        bytes : Bytes
        bytes = encodings (p ∷ ps)

        some_byte : 0 < length bytes
        some_byte = encoding-pos p (encodings ps)

        answer : Record
        answer = record { header = h; body = Body.get_values_result (body_of bytes) }

        body_of-IsValid : IsValid (body_of bytes)
        body_of-IsValid =
            omega (arith, ap length (append-nil bytes), f.content_fits, f.wire.content_length_u16)

        at_first-IsLimits : IsLimits at_first
        at_first-IsLimits = omega arith

        parsed : parse_body bytes h.rtype ≡ ok (Body.get_values_result (body_of bytes))
        parsed =
            rw
              (
                is_result,
                ← (
                    from_bytes-body_of bytes some_byte
                      (omega (arith, f.content_fits, f.wire.content_length_u16))),
              )
              (unfold parse_body in refl)

        received : send_and_receive [] reads ≡ some (ok (answer ∷ []))
        received =
            send_and_receive-frame h bytes pad f reads [] (Body.get_values_result (body_of bytes))
              parsed same
              (rw (same) (
                omega (
                  arith,
                  some_byte,
                  length-append (Header.bytes h) (bytes ++ pad),
                  length-append bytes pad,
                )))
              some_bytes

        settled-Emits :
            negotiate copy_to_bytes at_first (answer ∷ []) ≡ some (ok (settle at_first (p ∷ ps)))
            → Emits
                (limits_from copy_to_bytes (send_and_receive [] reads))
                []
                (done (settle at_first (p ∷ ps)))
        settled-Emits settled =
            rw (received, limits_from, settled) (return-Emits (settle at_first (p ∷ ps)))

    -- Let eight bytes be the place of a header, and `copy_to_bytes` take the front of a list
    -- without empty buffers. `new_with_strategy` writes one stream of `GetValues` with the three
    -- names that it asks for. Let the answer be one record of `GetValuesResult` on the wire, with
    -- the encodings of at least one pair, whose names and values have less than 128 bytes, in
    -- reads of which none is empty. Then the number of connections is the last value of
    -- `MAX_CONNS` that is a number of 8 bits, and the number of requests the last value of
    -- `MAX_REQS` that is one of 16 bits, each 1 if there is none; but if some value of
    -- `MPXS_CONNS` is 0, only the pairs in front of the first such pair count, and the number of
    -- requests is 1. Both fit their types.
    pub new_with_strategy-limits_of :
        (h : Header) (pad : Bytes) (p : NameValuePair) (ps : List NameValuePair)
        (reads : List Bytes)
        → IsFrame h (encodings (p ∷ ps)) pad
        → h.rtype ≡ RecordType.get_values_result
        → All IsShort (p ∷ ps)
        → flatten reads ≡ frame h (encodings (p ∷ ps)) pad
        → All (λ d. 0 < length d) reads
        → (out : Bytes) × Emits
            (new_with_strategy copy_to_bytes reads)
            out
            (done (limits_of at_first (p ∷ ps)))
          × Stream mgmt_request_id RecordType.get_values (encodings queried) out
          × IsLimits (limits_of at_first (p ∷ ps))
    new_with_strategy-limits_of h pad p ps reads f is_result short same some_bytes =
        let (out, e, st, bounded) =
          new_with_strategy-settle h pad p ps reads f is_result short same some_bytes in
        (
          out,
          subst (λ l. Emits (new_with_strategy copy_to_bytes reads) out (done l))
              (settle-limits_of at_first (p ∷ ps)) e,
          st,
          subst IsLimits (settle-limits_of at_first (p ∷ ps)) bounded,
        )
