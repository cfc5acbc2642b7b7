-- ===== src/Client/Params/Multiline.antt =====
-- client/connection.rs: a header with several lines ends `forward`, where such headers are refused.
use async_fcgi.Base.{ℕ, ◌≡◌, ap, ◌∙◌, true, false, inl, inr}
use async_fcgi.Base.{List, [], ◌∷◌, ◌++◌, Option, length, All, Bool-cases, drop}
use async_fcgi.Bytes.{Bytes}
use async_fcgi.Fastcgi.Types.{RecordType}
use async_fcgi.Fastcgi.Header.{Header, header_len}
use async_fcgi.Fastcgi.Header
use async_fcgi.Fastcgi.NameValuePair.{NameValuePair}
use async_fcgi.Fastcgi.NvBody.Drain.{encodings}
use async_fcgi.Codec.Io.{M, invalid_data, ◌>>=◌, ◌>>◌, return, ends}
use async_fcgi.Codec.Io.Bind.{bind_assoc}
use async_fcgi.Codec.Io.Emits.{Emits, same-Emits, bind-Emits}
use async_fcgi.Codec.Writer.{
  FcgiType, NameValuePairWriter, encode, kv_stream, flush, add_kv, add_all,
}
use async_fcgi.Codec.Writer.Streams.{Records}
use async_fcgi.Codec.Writer.Single.{begin_bytes, begin_request-Emits}
use async_fcgi.Codec.Writer.Body.{abort-Emits}
use async_fcgi.Codec.Writer.Pairs.{IsEncodable, kv_stream-Appends}
use async_fcgi.Codec.Writer.AddAll.{pair, Puts, Puts-nil, bind-Puts, add_kv-Puts, bind-ext}
use async_fcgi.Client.Headers.{HeaderMap, skip, contains_key, meta_name, header_value, refuses}
use async_fcgi.Client.Params.{HttpRequest, Strategies, announced, header_loop, put_params, put_head}
use async_fcgi.Client.Params.Laws.{header_pairs, IsAccepted, fixed_params, put_params-Puts}

module _ (blank : Bytes) (H : HeaderMap) (s : Strategies) (rid : ℕ) where
  abort : {A : Type 0} → M A
  abort = encode blank (FcgiType.abort_request rid) >> ends invalid_data

  header_loop_refused :
      (headers : H.Headers) (before after : List Bytes) (key : Bytes)
      → IsAccepted H s headers before
      → contains_key skip key ≡ false
      → refuses s.header_nl (header_value H s.header_mul headers key) ≡ true
      → Puts blank
          (header_pairs H s headers before)
          (λ _. abort)
          (header_loop blank H s rid headers (before ++ (key ∷ after)))
  unfolding header_loop abort
  header_loop_refused headers [] after key a kept refused kvw =
      rw (kept, refused) (Puts-nil blank (λ _. abort) kvw)
  header_loop_refused headers (k ∷ before) after key a kept refused kvw =
      elim (Bool-cases (contains_key skip k)) [
        | inl skipped ↦
            rw (skipped) (header_loop_refused headers before after key a.1 kept refused kvw)
        | inr taken ↦
            rw (taken, a.0 taken)
              (bind-Puts blank (pair (meta_name k) (header_value H s.header_mul headers k) ∷ [])
                (header_pairs H s headers before) (λ _. abort)
                (λ w. add_kv blank w (meta_name k) (header_value H s.header_mul headers k))
                (header_loop blank H s rid headers (before ++ (key ∷ after)))
                (add_kv-Puts blank (meta_name k) (header_value H s.header_mul headers k))
                (header_loop_refused headers before after key a.1 kept refused) kvw)
      ]

  -- With eight bytes as the place of the header, parameters in front of the first refused header that
  -- can be encoded are written in part, behind the beginning of the request, and then the record that
  -- aborts it; the call ends with the error for invalid data.
  pub put_head_multiline :
      (dyn_headers : List (Bytes × Bytes)) (req : HttpRequest H) (before after : List Bytes)
      (key : Bytes)
      → length blank ≡ header_len
      → H.keys req.headers ≡ before ++ (key ∷ after)
      → IsAccepted H s req.headers before
      → contains_key skip key ≡ false
      → refuses s.header_nl (header_value H s.header_mul req.headers key) ≡ true
      → All IsEncodable (fixed_params H s dyn_headers req ++ header_pairs H s req.headers before)
      → (sent kept out : Bytes) × Emits
          (put_head blank H s rid dyn_headers req)
          (begin_bytes rid ++ (out ++ Header.bytes (Header.new RecordType.abort_request rid 0)))
          invalid_data
        × Records rid RecordType.params sent out
        × (encodings (fixed_params H s dyn_headers req ++ header_pairs H s req.headers before)
            ≡ sent ++ kept)
  unfolding put_head abort
  put_head_multiline dyn_headers req before after key eight split a kept refused h =
      let w = kv_stream-Appends blank eight rid RecordType.params ps h in
      (
        w.sent,
        drop header_len w.buf,
        w.out,
        bind-Emits _ _ (begin_bytes rid) _ (begin_request-Emits blank rid) (
            same-Emits ends_there (
              bind-Emits (add_all blank kvw ps) (λ _. abort) w.out _ w.emits
                (abort-Emits blank rid invalid_data))),
        w.records,
        w.same_data,
      )
    where
      ps : List NameValuePair
      ps = fixed_params H s dyn_headers req ++ header_pairs H s req.headers before

      kvw : NameValuePairWriter
      kvw = kv_stream blank rid RecordType.params

      go_on : NameValuePairWriter → M (Option ℕ)
      go_on w = flush blank w >> return (announced req.size_upper req.size_lower)

      loop_ends :
          Puts blank
            (header_pairs H s req.headers before)
            (λ _. abort)
            (header_loop blank H s rid req.headers (H.keys req.headers))
      loop_ends = rw (split) (header_loop_refused req.headers before after key a kept refused)

      ends_there :
          (put_params blank H s rid dyn_headers req kvw >>= go_on)
          ≡ (add_all blank kvw ps >>= λ _. abort)
      ends_there =
          ap (λ m. m >>= go_on)
            (put_params-Puts blank H s rid dyn_headers req (header_pairs H s req.headers before)
              (λ _. abort) loop_ends kvw)
          ∙ bind_assoc (add_all blank kvw ps) (λ _. abort) go_on
          ∙ bind-ext (add_all blank kvw ps) (λ _.
            bind_assoc (encode blank (FcgiType.abort_request rid)) (λ _. ends invalid_data) go_on)
