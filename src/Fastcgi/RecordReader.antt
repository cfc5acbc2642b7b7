-- ===== src/Fastcgi/RecordReader.antt =====
-- fastcgi.rs: `RecordReader`, which reads records from a stream that arrives in pieces.
pub mod Steps
pub mod Output
pub mod Stream
pub mod EndRequest
pub mod Ends
pub mod Fragments
use async_fcgi.Base.{
  ℕ, zero, suc, ◌+◌, ◌-◌, List, [], ◌∷◌, Option, none, some, length, ltb, if◌then◌else◌,
}
use async_fcgi.Base.Result.{Res, ok, panic, ◌>>=◌}
use mathlib.Core.Option
use async_fcgi.Bytes.{Bytes, as_u16, slice, advance}
use async_fcgi.Fastcgi.Header.{Header}
use async_fcgi.Fastcgi.Header
use async_fcgi.Fastcgi.Record.{Record, Body, parse_body}

pub record RecordReader : Type 0 where
  pub current : Option Header

unfoldable pub new : RecordReader
new = record { current = none }

-- What one call of `read` gives back: its result, the reader and the bytes that are left.
abbrev pub Step : Type 0
Step = Option Record × RecordReader × Bytes

-- The end of `read`: the body is parsed and the record handed out.
pub emit : Header → Bytes → Option Header → Bytes → Res Step
emit header payload current rest = do
  body ← parse_body payload header.rtype
  ok (some (record { header = header; body = body }), record { current = current }, rest)

-- The body has been cut off; now the padding.
skip_padding : Header → ℕ → Bytes → Option Header → Bytes → Res Step
skip_padding header body_len payload current rest =
    if ltb (length rest) header.padding_length
    then (if ltb body_len 1
        then ok (none, record { current = some header }, rest)
        else emit header payload (some (record header { content_length = 0 })) rest)
    else (do behind ← advance rest header.padding_length; emit header payload current behind)

-- From "read type" on: the body is what `header` announces.
take_body : Header → ℕ → Option Header → Bytes → Res Step
take_body header body_len current d = do
  payload ← slice d 0 body_len
  rest ← advance d body_len
  skip_padding header body_len payload current rest

-- Not all of the body is there: the rest of it is stored for the next time.
read_partial : Header → Bytes → Res Step
read_partial full_header d =
    let body_len = length d in
    let nh = record full_header { content_length = as_u16 body_len; padding_length = 0 } in
    let later = record full_header {
      content_length = full_header.content_length - as_u16 body_len;
    } in
    if ltb body_len 1
    then ok (none, record { current = some later }, d)
    else take_body nh body_len (some later) d

-- From the whole header on.
pub read_body : Header → Bytes → Res Step
read_body full_header d =
    if ltb (length d) full_header.content_length
    then read_partial full_header d
    else take_body full_header full_header.content_length none d

read_from : Option Header → Bytes → Res Step
read_from (some h) d = read_body h d
read_from none d =
    if ltb (length d) 8
    then ok (none, record { current = none }, d)
    else (do (h, rest) ← Header.parse d; read_body h rest)

unfoldable pub read : RecordReader → Bytes → Res Step
unfolding read_from read_body read_partial take_body skip_padding emit
read r d = read_from r.current d

-- The loop `while let Some(r) = parser.read(data)`: the records, the reader and what is left.
-- `none` means that the fuel ran out.
unfoldable pub read_loop :
    ℕ → RecordReader → Bytes → Option (Res (List Record × RecordReader × Bytes))
read_loop zero r d = none
read_loop (suc fuel) r d = elim (read r d) [
  | panic ↦ some panic
  | ok (none, r', d') ↦ some (ok ([], r', d'))
  | ok (some rec, r', d') ↦
      Option.map (λ res. res >>= λ (recs, r'', d''). ok (rec ∷ recs, r'', d''))
        (read_loop fuel r' d')
]
