-- ===== src/Client/Params/Laws.antt =====
-- client/connection.rs: the parameters of a request are written as one stream.
use async_fcgi.Base.{ℕ, ◌≡◌, ap, sym, ◌∙◌, false, inl, inr}
use async_fcgi.Base.{
  append-nil, append_assoc, List, [], ◌∷◌, ◌++◌, Option, none, some, length, All, if◌then◌else◌,
  Bool-cases,
}
use async_fcgi.Bytes.{Bytes}
use async_fcgi.Fastcgi.Types.{RecordType}
use async_fcgi.Fastcgi.Header.{header_len}
use async_fcgi.Fastcgi.NameValuePair.{NameValuePair}
use async_fcgi.Fastcgi.NvBody.Drain.{encodings}
use async_fcgi.Codec.Io.{M, done, ◌>>=◌, ◌>>◌, return}
use async_fcgi.Codec.Io.Bind.{bind_assoc}
use async_fcgi.Codec.Io.Emits.{Emits, same-Emits, bind-Emits, return-Emits}
use async_fcgi.Codec.Writer.{NameValuePairWriter, encode_kvp, kv_stream, flush, add_kv, extend}
use async_fcgi.Codec.Writer.Streams.{Stream}
use async_fcgi.Codec.Writer.Single.{begin_bytes, begin_request-Emits}
use async_fcgi.Codec.Writer.Pairs.{IsEncodable, encode_kvp-Stream}
use async_fcgi.Codec.Writer.AddAll.{
  pair, of_iter, Puts, Puts-nil, bind-Puts, add_kv-Puts, extend-Puts, flush-encode_kvp,
}
use async_fcgi.Client.Headers.{
  HeaderMap, content_type, skip, contains_key, meta_name, header_value, refuses, or_null,
}
use async_fcgi.Client.Decimal.{to_string}
use async_fcgi.Client.Params.{
  HttpRequest, Strategies, announced, query_string, request_method, content_type_name,
  content_length_name, add_content_type, add_content_length, header_loop, put_params, put_head,
}

abbrev pub content_type_pairs : Option Bytes → List NameValuePair
content_type_pairs none = []
content_type_pairs (some value) = pair content_type_name value ∷ []

abbrev pub content_length_pairs : Option ℕ → List NameValuePair
content_length_pairs none = []
content_length_pairs (some value) = pair content_length_name (to_string value) ∷ []

module _ (H : HeaderMap) (s : Strategies) where
  -- The parameters that are made of the headers under these keys.
  abbrev pub header_pairs : H.Headers → List Bytes → List NameValuePair
  header_pairs headers [] = []
  header_pairs headers (key ∷ keys) =
      let others = header_pairs headers keys in
      if contains_key skip key
      then others
      else pair (meta_name key) (header_value H s.header_mul headers key) ∷ others

  -- No header that is forwarded has a value that is refused.
  abbrev pub IsAccepted : H.Headers → List Bytes → Type 0
  IsAccepted headers keys =
      All
        (λ key.
          contains_key skip key ≡ false
          → refuses s.header_nl (header_value H s.header_mul headers key) ≡ false)
        keys

  -- All but those that are made of headers.
  abbrev pub fixed_params : List (Bytes × Bytes) → HttpRequest H → List NameValuePair
  fixed_params dyn_headers req =
      of_iter dyn_headers
      ++ (pair query_string (or_null req.query)
          ∷ pair request_method req.method
          ∷ (content_type_pairs (H.get req.headers content_type)
              ++ content_length_pairs (announced req.size_upper req.size_lower)))

  -- The parameters of a request, in order.
  abbrev pub cgi_params : List (Bytes × Bytes) → HttpRequest H → List NameValuePair
  cgi_params dyn_headers req =
      fixed_params dyn_headers req ++ header_pairs req.headers (H.keys req.headers)

module _ (blank : Bytes) where
  add_content_type-Puts :
      (o : Option Bytes) → Puts blank (content_type_pairs o) return (add_content_type blank o)
  unfolding add_content_type
  add_content_type-Puts none = Puts-nil blank return
  add_content_type-Puts (some value) = add_kv-Puts blank content_type_name value

  add_content_length-Puts :
      (o : Option ℕ) → Puts blank (content_length_pairs o) return (add_content_length blank o)
  unfolding add_content_length
  add_content_length-Puts none = Puts-nil blank return
  add_content_length-Puts (some value) = add_kv-Puts blank content_length_name (to_string value)

  module _ (H : HeaderMap) (s : Strategies) (rid : ℕ) where
    header_loop-Puts :
        (headers : H.Headers) (keys : List Bytes)
        → IsAccepted H s headers keys
        → Puts blank (header_pairs H s headers keys) return (header_loop blank H s rid headers keys)
    unfolding header_loop
    header_loop-Puts headers [] a kvw = Puts-nil blank return kvw
    header_loop-Puts headers (key ∷ keys) a kvw = elim (Bool-cases (contains_key skip key)) [
      | inl skipped ↦ rw (skipped) (header_loop-Puts headers keys a.1 kvw)
      | inr kept ↦
          rw (kept, a.0 kept)
            (bind-Puts blank (pair (meta_name key) (header_value H s.header_mul headers key) ∷ [])
              (header_pairs H s headers keys) return
              (λ w. add_kv blank w (meta_name key) (header_value H s.header_mul headers key))
              (header_loop blank H s rid headers keys)
              (add_kv-Puts blank (meta_name key) (header_value H s.header_mul headers key))
              (header_loop-Puts headers keys a.1) kvw)
    ]

    -- `put_params` gives the writer the other parameters, and then what its loop gives.
    pub put_params-Puts :
        (dyn_headers : List (Bytes × Bytes)) (req : HttpRequest H) (ps : List NameValuePair)
        (c : NameValuePairWriter → M NameValuePairWriter)
        → Puts blank ps c (header_loop blank H s rid req.headers (H.keys req.headers))
        → Puts blank
            (fixed_params H s dyn_headers req ++ ps)
            c
            (put_params blank H s rid dyn_headers req)
    unfolding put_params
    put_params-Puts dyn_headers req ps c h = rw (same) at (
        bind-Puts blank (of_iter dyn_headers) _ c (λ w. extend blank w dyn_headers) _
          (extend-Puts blank dyn_headers)
          (bind-Puts blank (query ∷ []) _ c (λ w. add_kv blank w query_string (or_null req.query)) _
            (add_kv-Puts blank query_string (or_null req.query))
            (bind-Puts blank (method ∷ []) _ c (λ w. add_kv blank w request_method req.method) _
              (add_kv-Puts blank request_method req.method)
              (bind-Puts blank types _ c (add_content_type blank (H.get req.headers content_type)) _
                (add_content_type-Puts (H.get req.headers content_type))
                (bind-Puts blank lengths ps c
                  (add_content_length blank (announced req.size_upper req.size_lower)) _
                  (add_content_length-Puts (announced req.size_upper req.size_lower)) h)))))
      where
        query : NameValuePair
        query = pair query_string (or_null req.query)

        method : NameValuePair
        method = pair request_method req.method

        types : List NameValuePair
        types = content_type_pairs (H.get req.headers content_type)

        lengths : List NameValuePair
        lengths = content_length_pairs (announced req.size_upper req.size_lower)

        same :
            of_iter dyn_headers ++ ((query ∷ []) ++ ((method ∷ []) ++ (types ++ (lengths ++ ps))))
            ≡ fixed_params H s dyn_headers req ++ ps
        same = simp append_assoc

    -- With eight bytes as the place of the header, names and values of at most 0x7fffffff bytes, and
    -- no refused value.
    pub put_head-Stream :
        (dyn_headers : List (Bytes × Bytes)) (req : HttpRequest H)
        → length blank ≡ header_len
        → IsAccepted H s req.headers (H.keys req.headers)
        → All IsEncodable (cgi_params H s dyn_headers req)
        → (out : Bytes) × Emits
            (put_head blank H s rid dyn_headers req)
            (begin_bytes rid ++ out)
            (done (announced req.size_upper req.size_lower))
          × Stream rid RecordType.params (encodings (cgi_params H s dyn_headers req)) out
    unfolding put_head
    put_head-Stream dyn_headers req eight a h =
        let (out, e, st) =
          encode_kvp-Stream blank eight rid RecordType.params (cgi_params H s dyn_headers req) h in
        (
          out,
          bind-Emits _ _ (begin_bytes rid) out (begin_request-Emits blank rid)
              (same-Emits one_stream (then_len out e)),
          st,
        )
      where
        len : Option ℕ
        len = announced req.size_upper req.size_lower

        all_pairs : M (Unit {0})
        all_pairs = encode_kvp blank rid RecordType.params (cgi_params H s dyn_headers req)

        then_len :
            (out : Bytes)
            → Emits all_pairs out (done tt)
            → Emits (all_pairs >> return len) out (done len)
        then_len out e =
            rw (append-nil out) at
              (bind-Emits all_pairs (λ _. return len) out [] e (return-Emits len))

        one_stream :
            (put_params blank H s rid dyn_headers req (kv_stream blank rid RecordType.params)
              >>= λ kvw. (flush blank kvw >> return len))
            ≡ (all_pairs >> return len)
        one_stream =
            sym (
              bind_assoc (put_params blank H s rid dyn_headers req (kv_stream blank rid _))
                (flush blank) (λ _. return len))
            ∙ ap (λ m. m >> return len)
                (flush-encode_kvp blank rid RecordType.params (cgi_params H s dyn_headers req)
                  (put_params blank H s rid dyn_headers req)
                  (put_params-Puts dyn_headers req _ return
                    (header_loop-Puts req.headers (H.keys req.headers) a)))
