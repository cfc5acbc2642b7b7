-- ===== src/Httpparse.antt =====
-- httpparse.rs: the head of a response, by the parser of the crate httparse.
pub mod Laws
use async_fcgi.Base.{ℕ, ◌≡◌, ◌≢◌, List, [], ◌∷◌, Option, none, some}
use async_fcgi.Base.Result.{Res, ok, panic, ◌>>=◌}
use async_fcgi.Bytes.{Bytes, slice, advance}

-- `ParseResult`: the bytes behind the head, or that more are needed, or an error.
pub data ParseResult : Type 0 where
  parsed : Bytes → ParseResult
  pending parse_err : ParseResult

-- `httparse::Header`: its name, and where its value is in the bytes that were parsed.
pub record RawHeader : Type 0 where
  pub name : Bytes
  pub value_start : ℕ
  pub value_end : ℕ

-- `httparse::Status`
pub data Status : Type 0 where
  complete : ℕ → List RawHeader → Status
  partial : Status

-- `HeaderMap` of the crate `http`, as it is filled. It documents that `insert` removes the values
-- that were under the key before.
pub record ResponseMap : Type 1 where
  pub Map : Type 0
  pub empty : Map
  pub insert : Map → Bytes → Bytes → Map
  pub get_all : Map → Bytes → List Bytes
  pub get_all-empty : (key : Bytes) → get_all empty key ≡ []
  pub get_all-insert : (m : Map) (key val : Bytes) → get_all (insert m key val) key ≡ val ∷ []
  pub get_all-insert_ne :
      (m : Map) (key val other : Bytes)
      → other ≢ key
      → get_all (insert m key val) other ≡ get_all m other

-- `header_name` is `HeaderName::from_bytes` of the crate `http`, `parse_headers` the function of the
-- crate httparse with room for `MAX_HEADERS` headers; `none` is an error of either.
module _ (R : ResponseMap) (header_name : Bytes → Option Bytes) where
  insert_named : Bytes → RawHeader → R.Map → Option Bytes → Res R.Map
  insert_named bytes h m none = panic
  insert_named bytes h m (some name) = do
    value ← slice bytes h.value_start h.value_end
    ok (R.insert m name value)

  insert_headers : Bytes → List RawHeader → R.Map → Res R.Map
  unfolding insert_named
  insert_headers bytes [] m = ok m
  insert_headers bytes (h ∷ headers) m = do
    m1 ← insert_named bytes h m (header_name h.name)
    insert_headers bytes headers m1

  on_status : Bytes → R.Map → Option Status → Res (ParseResult × R.Map)
  unfolding insert_headers
  on_status bytes m none = ok (parse_err, m)
  on_status bytes m (some partial) = ok (pending, m)
  on_status bytes m (some (complete pos headers)) = do
    m1 ← insert_headers bytes headers m
    rest ← advance bytes pos
    ok (parsed rest, m1)

  pub parse : (Bytes → Option Status) → Bytes → R.Map → Res (ParseResult × R.Map)
  unfolding on_status
  parse parse_headers bytes m = on_status bytes m (parse_headers bytes)
