-- ===== src/Fastcgi/RecordReader/Output.antt =====
-- fastcgi.rs: the streams of output that the theorems on `RecordReader` speak of.
use async_fcgi.Base.{ℕ, none, some, Option, List, [], ◌++◌, map, ◌≡◌, refl}
use async_fcgi.Bytes.{Bytes}
use async_fcgi.Fastcgi.Types.{RecordType}
use async_fcgi.Fastcgi.Header.{Header, IsWire}
use async_fcgi.Fastcgi.Header
use async_fcgi.Fastcgi.Record.{Record, Body}
use async_fcgi.Fastcgi.Record.Read.{IsFrame}

-- The records whose body is a stretch of a byte stream.
pub data IsOutput : RecordType → Type 0 where
  std_out : IsOutput RecordType.std_out
  std_err : IsOutput RecordType.std_err

-- One byte of output: the request, the stream and the byte.
abbrev pub Output : Type 0
Output = ℕ × RecordType × ℕ

abbrev pub tag : Header → Bytes → List Output
tag h = map λ b. (h.request_id, h.rtype, b)

abbrev pub payload : Body → Bytes
payload (Body.std_out b) = b
payload (Body.std_err b) = b
payload _ = []

-- The body of an output record, as it is parsed.
abbrev pub body_of : {t : RecordType} → IsOutput t → Bytes → Body
body_of std_out b = Body.std_out b
body_of std_err b = Body.std_err b

pub payload-body_of : {t : RecordType} (o : IsOutput t) (b : Bytes) → payload (body_of o b) ≡ b
payload-body_of std_out b = refl
payload-body_of std_err b = refl

-- A record as the reader makes it of a record of output, or of a part of one.
pub record IsOutputRecord (r : Record) : Type 0 where
  pub stream : IsOutput r.header.rtype
  pub bytes : Bytes
  pub is_body : r.body ≡ body_of stream bytes

-- The bytes of output that a record carries.
abbrev pub outputs : Record → List Output
outputs r = tag r.header (payload r.body)

-- What is still to come of a stream of whole output records: behind the header `current` or, for
-- `none`, between two records.
pub data Expect : Option Header → Bytes → List Output → Type 0 where
  done : Expect none [] []
  header :
      {h : Header} {behind : Bytes} {out : List Output}
      → IsWire h
      → IsOutput h.rtype
      → Expect (some h) behind out
      → Expect none (Header.bytes h ++ behind) out
  content :
      {h : Header} {payload pad behind : Bytes} {out : List Output}
      → IsFrame h payload pad
      → IsOutput h.rtype
      → Expect none behind out
      → Expect (some h) (payload ++ (pad ++ behind)) (tag h payload ++ out)
