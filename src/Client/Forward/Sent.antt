-- ===== src/Client/Forward/Sent.antt =====
-- client/connection.rs: the records of a request that `forward` sends.
use async_fcgi.Base.{ℕ, ◌^◌, ◌<◌, ◌≡◌, refl, true, false}
use async_fcgi.Base.{List, [], ◌∷◌, ◌++◌, Option, none, some, length, All}
use async_fcgi.Bytes.{Bytes}
use async_fcgi.Fastcgi.Types.{RecordType}
use async_fcgi.Fastcgi.Header.{Header, header_len}
use async_fcgi.Fastcgi.Header
use async_fcgi.Fastcgi.NvBody.Drain.{encodings}
use async_fcgi.Codec.Io.{done, invalid_data}
use async_fcgi.Codec.Io.Emits.{Emits, bind-Emits, stop-Emits}
use async_fcgi.Codec.Writer.Streams.{Records, Stream}
use async_fcgi.Codec.Writer.Single.{begin_bytes}
use async_fcgi.Codec.Writer.Chunk.{flush_data_chunk_empty}
use async_fcgi.Codec.Writer.Body.{body_bytes}
use async_fcgi.Codec.Writer.Pairs.{IsEncodable}
use async_fcgi.Client.Headers.{HeaderMap, skip, contains_key, header_value, refuses}
use async_fcgi.Client.Params.{HttpRequest, Strategies, announced, put_head}
use async_fcgi.Client.Params.Laws.{
  header_pairs, IsAccepted, fixed_params, cgi_params, put_head-Stream,
}
use async_fcgi.Client.Params.Multiline.{put_head_multiline}
use async_fcgi.Client.Send.{send_body-Stream}
use async_fcgi.Client.Forward.{send_rest, send_request}

-- The body has the length that is announced, if one is.
abbrev pub IsAnnounced : Option ℕ → List (Option Bytes) → Type 0
IsAnnounced none chunks = Unit
IsAnnounced (some len) chunks = (len < 2 ^ 64) × (length (body_bytes chunks) ≡ len)

-- The bytes of the body that are sent: none if no length is announced.
abbrev pub sent_bytes : Option ℕ → List (Option Bytes) → Bytes
sent_bytes none chunks = []
sent_bytes (some len) chunks = body_bytes chunks

module _ (blank : Bytes) (H : HeaderMap) (s : Strategies) (rid : ℕ) where
  send_rest-Stream :
      (req : HttpRequest H) (len : Option ℕ)
      → IsAnnounced len req.chunks
      → (out : Bytes) × Emits (send_rest blank H s rid req len) out (done tt)
        × Stream rid RecordType.std_in (sent_bytes len req.chunks) out
  unfolding send_rest
  send_rest-Stream req none a = flush_data_chunk_empty rid RecordType.std_in
  send_rest-Stream req (some len) a = send_body-Stream blank rid len req.chunks a.0 a.1

  -- With eight bytes as the place of the header, no refused header, parameters that can be encoded and a
  -- body of the announced length, the beginning of the request, its parameters as one stream and its
  -- body as one stream are written.
  pub send_request-Streams :
      (dyn_headers : List (Bytes × Bytes)) (req : HttpRequest H)
      → length blank ≡ header_len
      → IsAccepted H s req.headers (H.keys req.headers)
      → All IsEncodable (cgi_params H s dyn_headers req)
      → IsAnnounced (announced req.size_upper req.size_lower) req.chunks
      → (params stdin : Bytes) × Emits
          (send_request blank H s rid dyn_headers req)
          ((begin_bytes rid ++ params) ++ stdin)
          (done tt)
        × Stream rid RecordType.params (encodings (cgi_params H s dyn_headers req)) params
        × Stream rid RecordType.std_in
            (sent_bytes (announced req.size_upper req.size_lower) req.chunks)
            stdin
  unfolding send_request
  send_request-Streams dyn_headers req eight a h len =
      let (params, e1, s1) = put_head-Stream blank H s rid dyn_headers req eight a h in
      let (stdin, e2, s2) = send_rest-Stream req (announced req.size_upper req.size_lower) len in
      (
        params,
        stdin,
        bind-Emits (put_head blank H s rid dyn_headers req) _ (begin_bytes rid ++ params) stdin e1
            e2,
        s1,
        s2,
      )

  -- With a refused header, `send_request` ends where its head does, as `put_head_multiline` says.
  pub send_request_multiline :
      (dyn_headers : List (Bytes × Bytes)) (req : HttpRequest H) (before after : List Bytes)
      (key : Bytes)
      → length blank ≡ header_len
      → H.keys req.headers ≡ before ++ (key ∷ after)
      → IsAccepted H s req.headers before
      → contains_key skip key ≡ false
      → refuses s.header_nl (header_value H s.header_mul req.headers key) ≡ true
      → All IsEncodable (fixed_params H s dyn_headers req ++ header_pairs H s req.headers before)
      → (sent kept out : Bytes) × Emits
          (send_request blank H s rid dyn_headers req)
          (begin_bytes rid ++ (out ++ Header.bytes (Header.new RecordType.abort_request rid 0)))
          invalid_data
        × Records rid RecordType.params sent out
        × (encodings (fixed_params H s dyn_headers req ++ header_pairs H s req.headers before)
            ≡ sent ++ kept)
  unfolding send_request
  send_request_multiline dyn_headers req before after key eight split a kept refused h =
      let (front, back, out, e, r, same) =
        put_head_multiline blank H s rid dyn_headers req before after key eight split a kept refused
          h in
      (
        front,
        back,
        out,
        stop-Emits (put_head blank H s rid dyn_headers req) _ _ e (λ io'. refl),
        r,
        same,
      )
