-- ===== src/Client/Params.antt =====
-- client/connection.rs: the part of `forward` that writes the beginning of a request and its parameters.
pub mod Laws
pub mod Multiline
pub mod Skipped
use async_fcgi.Base.{ℕ, zero, suc, List, [], ◌∷◌, Option, none, some, if◌then◌else◌}
use async_fcgi.Bytes.{Bytes}
use async_fcgi.Fastcgi.Types.{RecordType, FastCgiRole}
use async_fcgi.Fastcgi.Record.{keep_conn}
use async_fcgi.Codec.Io.{M, invalid_data, ◌>>=◌, ◌>>◌, return, ends}
use async_fcgi.Codec.Writer.{
  FcgiType, NameValuePairWriter, encode, kv_stream, extend, add_kv, flush,
}
use async_fcgi.Client.Headers.{
  HeaderMap, MultiHeaderStrategy, HeaderMultilineStrategy, content_type, skip, contains_key,
  meta_name, header_value, refuses, or_null,
}
use async_fcgi.Client.Headers
use async_fcgi.Client.Decimal.{to_string}

-- `QUERY_STRING`, `REQUEST_METHOD`, `CONTENT_TYPE`, `CONTENT_LENGTH`
abbrev pub query_string : Bytes
query_string = 81 ∷ 85 ∷ 69 ∷ 82 ∷ 89 ∷ 95 ∷ 83 ∷ 84 ∷ 82 ∷ 73 ∷ 78 ∷ 71 ∷ []

abbrev pub request_method : Bytes
request_method = 82 ∷ 69 ∷ 81 ∷ 85 ∷ 69 ∷ 83 ∷ 84 ∷ 95 ∷ 77 ∷ 69 ∷ 84 ∷ 72 ∷ 79 ∷ 68 ∷ []

abbrev pub content_type_name : Bytes
content_type_name = 67 ∷ 79 ∷ 78 ∷ 84 ∷ 69 ∷ 78 ∷ 84 ∷ 95 ∷ 84 ∷ 89 ∷ 80 ∷ 69 ∷ []

abbrev pub content_length_name : Bytes
content_length_name = 67 ∷ 79 ∷ 78 ∷ 84 ∷ 69 ∷ 78 ∷ 84 ∷ 95 ∷ 76 ∷ 69 ∷ 78 ∷ 71 ∷ 84 ∷ 72 ∷ []

-- What `forward` uses of a `Request` of the crate `http` and of its body: the query of the URI, the
-- method, the headers, the two bounds of the size hint, and the chunks; `none` is an error.
pub record HttpRequest (H : HeaderMap) : Type 0 where
  pub query : Option Bytes
  pub method : Bytes
  pub headers : H.Headers
  pub size_lower : ℕ
  pub size_upper : Option ℕ
  pub chunks : List (Option Bytes)

-- The two strategies of a `Connection`.
pub record Strategies : Type 0 where
  pub header_mul : MultiHeaderStrategy
  pub header_nl : HeaderMultilineStrategy

-- `len` of `forward`: what is announced, unless the body is known to be empty.
unfoldable pub announced : Option ℕ → ℕ → Option ℕ
announced none lower = some lower
announced (some zero) lower = none
announced (some (suc upper)) lower = some lower

module _ (blank : Bytes) where
  add_content_type : Option Bytes → NameValuePairWriter → M NameValuePairWriter
  add_content_type none kvw = return kvw
  add_content_type (some value) kvw = add_kv blank kvw content_type_name value

  add_content_length : Option ℕ → NameValuePairWriter → M NameValuePairWriter
  add_content_length none kvw = return kvw
  add_content_length (some value) kvw = add_kv blank kvw content_length_name (to_string value)

module _ (blank : Bytes) (H : HeaderMap) (s : Strategies) (rid : ℕ) where
  -- The loop over the keys. A value that is refused ends `forward`, and what the writer holds is
  -- dropped with it.
  pub header_loop : H.Headers → List Bytes → NameValuePairWriter → M NameValuePairWriter
  header_loop headers [] kvw = return kvw
  header_loop headers (key ∷ keys) kvw =
      let value = header_value H s.header_mul headers key in
      let refuse : M NameValuePairWriter =
        encode blank (FcgiType.abort_request rid) >> ends invalid_data in
      let add : M NameValuePairWriter =
        add_kv blank kvw (meta_name key) value >>= header_loop headers keys in
      let next = header_loop headers keys kvw in
      if contains_key skip key then next else if refuses s.header_nl value then refuse else add

  pub put_params :
      List (Bytes × Bytes) → HttpRequest H → NameValuePairWriter → M NameValuePairWriter
  unfolding add_content_type add_content_length header_loop
  put_params dyn_headers req kvw = do
    kvw1 ← extend blank kvw dyn_headers
    kvw2 ← add_kv blank kvw1 query_string (or_null req.query)
    kvw3 ← add_kv blank kvw2 request_method req.method
    kvw4 ← add_content_type blank (H.get req.headers content_type) kvw3
    kvw5 ← add_content_length blank (announced req.size_upper req.size_lower) kvw4
    header_loop req.headers (H.keys req.headers) kvw5

  -- From `encode` to `flush`; its result is `len`.
  pub put_head : List (Bytes × Bytes) → HttpRequest H → M (Option ℕ)
  unfolding put_params
  put_head dyn_headers req = do
    encode blank (FcgiType.begin_request rid FastCgiRole.responder keep_conn)
    kvw ← put_params dyn_headers req (kv_stream blank rid RecordType.params)
    flush blank kvw
    return (announced req.size_upper req.size_lower)
