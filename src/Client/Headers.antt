-- ===== src/Client/Headers.antt =====
-- client/connection.rs: the HTTP headers of a request, as `forward` turns them into parameters.
pub mod Names
pub mod Values
use async_fcgi.Base.{ℕ, ◌-◌, ◌≡◌, refl, Bool, true, false, List, [], ◌∷◌, ◌++◌, Option, none, some}
use async_fcgi.Base.{leb, ◌==◌, ◌&&◌, ◌||◌, if◌then◌else◌, map}
use async_fcgi.Bytes.{Bytes}
use async_fcgi.Client.ConPool.{same_bytes}

-- `MultiHeaderStrategy`
pub data MultiHeaderStrategy : Type 0 where
  combine only_first only_last : MultiHeaderStrategy

-- `HeaderMultilineStrategy`
pub data HeaderMultilineStrategy : Type 0 where
  ignore return_error : HeaderMultilineStrategy

abbrev pub first : List Bytes → Option Bytes
first [] = none
first (v ∷ vs) = some v

-- `HeaderMap` of the crate `http`: its keys, as `HeaderName::as_str` gives them, and what is under one.
-- It documents that `get` gives the first of the values of `get_all`.
pub record HeaderMap : Type 1 where
  pub Headers : Type 0
  pub keys : Headers → List Bytes
  pub get : Headers → Bytes → Option Bytes
  pub get_all : Headers → Bytes → List Bytes
  pub get-first : (h : Headers) (key : Bytes) → get h key ≡ first (get_all h key)

-- `authorization`, `content-length`, `content-type`
abbrev pub authorization : Bytes
authorization = 97 ∷ 117 ∷ 116 ∷ 104 ∷ 111 ∷ 114 ∷ 105 ∷ 122 ∷ 97 ∷ 116 ∷ 105 ∷ 111 ∷ 110 ∷ []

abbrev pub content_length : Bytes
content_length =
    99 ∷ 111 ∷ 110 ∷ 116 ∷ 101 ∷ 110 ∷ 116 ∷ 45 ∷ 108 ∷ 101 ∷ 110 ∷ 103 ∷ 116 ∷ 104 ∷ []

abbrev pub content_type : Bytes
content_type = 99 ∷ 111 ∷ 110 ∷ 116 ∷ 101 ∷ 110 ∷ 116 ∷ 45 ∷ 116 ∷ 121 ∷ 112 ∷ 101 ∷ []

abbrev pub skip : List Bytes
skip = authorization ∷ content_length ∷ content_type ∷ []

unfoldable pub contains_key : List Bytes → Bytes → Bool
unfolding same_bytes
contains_key [] key = false
contains_key (x ∷ xs) key = same_bytes x key || contains_key xs key

-- The bytes of a header's name in that of its parameter: `b'-' ↦ b'_'`, `a ... z` in upper case.
unfoldable pub upper : ℕ → ℕ
upper c = if c == 45 then 95 else if leb 97 c && leb c 122 then c - (97 - 65) else c

-- `HTTP_`
abbrev http_prefix : Bytes
http_prefix = 72 ∷ 84 ∷ 84 ∷ 80 ∷ 95 ∷ []

unfoldable pub meta_name : Bytes → Bytes
unfolding upper
meta_name key = http_prefix ++ map upper key

-- The loop of `Combine` over the values, with `first` of the source.
unfoldable pub combine_loop : Bytes → Bool → List Bytes → Bytes
combine_loop value_buf first [] = value_buf
combine_loop value_buf false (v ∷ vs) = combine_loop (value_buf ++ v) true vs
combine_loop value_buf true (v ∷ vs) = combine_loop ((value_buf ++ (44 ∷ [])) ++ v) true vs

-- `iter().next_back()`
last : List Bytes → Option Bytes
last [] = none
last (v ∷ []) = some v
last (v ∷ w ∷ vs) = last (w ∷ vs)

-- A missing value is empty.
abbrev pub or_null : Option Bytes → Bytes
or_null none = []
or_null (some v) = v

unfoldable pub contains_newline : Bytes → Bool
contains_newline [] = false
contains_newline (c ∷ cs) = c == 10 || contains_newline cs

unfoldable pub refuses : HeaderMultilineStrategy → Bytes → Bool
unfolding contains_newline
refuses ignore value = false
refuses return_error value = contains_newline value

module _ (H : HeaderMap) where
  unfoldable pub header_value : MultiHeaderStrategy → H.Headers → Bytes → Bytes
  unfolding combine_loop last
  header_value combine h key = combine_loop [] false (H.get_all h key)
  header_value only_first h key = or_null (H.get h key)
  header_value only_last h key = or_null (last (H.get_all h key))

  pub header_value-cong :
      (strategy : MultiHeaderStrategy) (h1 h2 : H.Headers) (key : Bytes)
      → H.get_all h1 key ≡ H.get_all h2 key
      → header_value strategy h1 key ≡ header_value strategy h2 key
  unfolding header_value
  header_value-cong combine h1 h2 key e = rw (e) refl
  header_value-cong only_first h1 h2 key e = rw (H.get-first h1 key, H.get-first h2 key, e) refl
  header_value-cong only_last h1 h2 key e = rw (e) refl
