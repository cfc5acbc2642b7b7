-- ===== src/Client/Params/Skipped.antt =====
-- client/connection.rs: what `forward` writes does not depend on the credentials of a request.
use async_fcgi.Base.{ℕ, ◌≡◌, refl, ap, ap₂, sym, ◌∙◌, false, inl, inr}
use async_fcgi.Base.{List, [], ◌∷◌, Option, if◌then◌else◌, Bool-cases}
use std.Path.{fun_ext}
use async_fcgi.Bytes.{Bytes}
use async_fcgi.Fastcgi.Types.{RecordType}
use async_fcgi.Codec.Io.{M, invalid_data, ◌>>=◌, ◌>>◌, return, ends}
use async_fcgi.Codec.Writer.{
  FcgiType, NameValuePairWriter, encode, kv_stream, extend, add_kv, flush,
}
use async_fcgi.Codec.Writer.AddAll.{bind-ext}
use async_fcgi.Client.Headers.{
  HeaderMap, or_null, content_type, skip, contains_key, meta_name, header_value, header_value-cong,
  refuses,
}
use async_fcgi.Client.Params.{
  HttpRequest, Strategies, announced, query_string, request_method, add_content_type,
  add_content_length, header_loop, put_params, put_head,
}

-- The keys that are not skipped.
abbrev pub kept_keys : List Bytes → List Bytes
kept_keys [] = []
kept_keys (key ∷ keys) =
    let others = kept_keys keys in if contains_key skip key then others else key ∷ others

module _ (H : HeaderMap) where
  -- Two header maps that have the same under every key that is not skipped, and the same type of
  -- the content.
  pub record SameButSkipped (h1 h2 : H.Headers) : Type 0 where
    pub same_keys : kept_keys (H.keys h1) ≡ kept_keys (H.keys h2)
    pub same_values :
        (key : Bytes) → contains_key skip key ≡ false → H.get_all h1 key ≡ H.get_all h2 key
    pub same_type : H.get_all h1 content_type ≡ H.get_all h2 content_type

module _ (blank : Bytes) (H : HeaderMap) (s : Strategies) (rid : ℕ) where
  -- What is done with the value of a header, and then `add`.
  abbrev unless_refused : Bytes → M NameValuePairWriter → M NameValuePairWriter
  unless_refused value add =
      if refuses s.header_nl value
      then (encode blank (FcgiType.abort_request rid) >> ends invalid_data)
      else add

  header_loop-kept_keys :
      (h : H.Headers) (keys : List Bytes) (kvw : NameValuePairWriter)
      → header_loop blank H s rid h keys kvw ≡ header_loop blank H s rid h (kept_keys keys) kvw
  unfolding header_loop
  header_loop-kept_keys h [] kvw = refl
  header_loop-kept_keys h (key ∷ keys) kvw = elim (Bool-cases (contains_key skip key)) [
    | inl skipped ↦ rw (skipped) (header_loop-kept_keys h keys kvw)
    | inr kept ↦
        rw (kept, header_loop, kept)
          (ap (unless_refused (header_value H s.header_mul h key)) (
            bind-ext (add_kv blank kvw (meta_name key) (header_value H s.header_mul h key))
              (header_loop-kept_keys h keys)))
  ]

  header_loop-same :
      (h1 h2 : H.Headers)
      → ((key : Bytes) → contains_key skip key ≡ false → H.get_all h1 key ≡ H.get_all h2 key)
      → (keys : List Bytes) (kvw : NameValuePairWriter)
      → header_loop blank H s rid h1 keys kvw ≡ header_loop blank H s rid h2 keys kvw
  unfolding header_loop
  header_loop-same h1 h2 same [] kvw = refl
  header_loop-same h1 h2 same (key ∷ keys) kvw = elim (Bool-cases (contains_key skip key)) [
    | inl skipped ↦ rw (skipped) (header_loop-same h1 h2 same keys kvw)
    | inr kept ↦
        rw (kept, header_value-cong H s.header_mul h1 h2 key (same key kept))
          (ap (unless_refused (header_value H s.header_mul h2 key)) (
            bind-ext (add_kv blank kvw (meta_name key) (header_value H s.header_mul h2 key))
              (header_loop-same h1 h2 same keys)))
  ]

  -- If two header maps have the same keys, in order, but for `authorization`, `content-length`
  -- and `content-type`, the same values under them, and the same types of the content, then
  -- `forward` writes the same for a request with either, on every socket: what is written does
  -- not depend on the credentials.
  pub put_head-SameButSkipped :
      (dyn_headers : List (Bytes × Bytes)) (req : HttpRequest H) (h : H.Headers)
      → SameButSkipped H req.headers h
      → put_head blank H s rid dyn_headers req
        ≡ put_head blank H s rid dyn_headers (record req { headers = h })
  unfolding put_head
  put_head-SameButSkipped dyn_headers req h same =
      bind-ext (encode blank _) (λ _. ap (λ m. m >>= go_on) same_params)
    where
      go_on : NameValuePairWriter → M (Option ℕ)
      go_on w = flush blank w >> return (announced req.size_upper req.size_lower)

      loops : NameValuePairWriter → M NameValuePairWriter
      loops = header_loop blank H s rid req.headers (H.keys req.headers)

      same_loops : loops ≡ header_loop blank H s rid h (H.keys h)
      same_loops = fun_ext (λ w.
          header_loop-kept_keys req.headers (H.keys req.headers) w
          ∙ header_loop-same req.headers h same.same_values (kept_keys (H.keys req.headers)) w
          ∙ ap (λ keys. header_loop blank H s rid h keys w) same.same_keys
          ∙ sym (header_loop-kept_keys h (H.keys h) w))

      same_get : H.get req.headers content_type ≡ H.get h content_type
      same_get =
          rw (H.get-first req.headers content_type, H.get-first h content_type, same.same_type) refl

      params_of :
          Option Bytes → (NameValuePairWriter → M NameValuePairWriter) → M NameValuePairWriter
      params_of o loop = do
        kvw1 ← extend blank (kv_stream blank rid RecordType.params) dyn_headers
        kvw2 ← add_kv blank kvw1 query_string (or_null req.query)
        kvw3 ← add_kv blank kvw2 request_method req.method
        kvw4 ← add_content_type blank o kvw3
        kvw5 ← add_content_length blank (announced req.size_upper req.size_lower) kvw4
        loop kvw5

      same_params :
          put_params blank H s rid dyn_headers req (kv_stream blank rid RecordType.params)
          ≡ put_params blank H s rid dyn_headers
              (record req { headers = h })
              (kv_stream blank rid RecordType.params)
      same_params = unfold put_params in ap₂ params_of same_get same_loops
