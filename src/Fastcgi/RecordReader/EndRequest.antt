-- ===== src/Fastcgi/RecordReader/EndRequest.antt =====
-- fastcgi.rs: `RecordReader` on an `EndRequest` record, whole and cut inside its body.
use async_fcgi.Base.{◌<◌, ◌≡◌, refl, ◌∙◌, arith, none, some}
use async_fcgi.Base.{[], ◌∷◌, ◌++◌, length}
use async_fcgi.Base.Result.{panic}
use async_fcgi.Bytes.{Bytes, advance}
use async_fcgi.Fastcgi.Types.{RecordType, status_try_from}
use async_fcgi.Fastcgi.Header.{Header, IsWire}
use async_fcgi.Fastcgi.Header
use async_fcgi.Fastcgi.Record.{parse_body, parse_end_request}
use async_fcgi.Fastcgi.RecordReader.{read, read_body, emit}
use async_fcgi.Fastcgi.RecordReader.Steps.{read_body_partial, read-some, read_header}

-- A body of less than eight bytes makes the parser panic.
parse_end_request_short : (d : Bytes) → length d < 8 → parse_end_request d ≡ panic
unfolding parse_end_request advance status_try_from
parse_end_request_short [] h = refl
parse_end_request_short (a ∷ []) h = refl
parse_end_request_short (a ∷ b ∷ []) h = refl
parse_end_request_short (a ∷ b ∷ c ∷ []) h = refl
parse_end_request_short (a ∷ b ∷ c ∷ e ∷ []) h = refl
parse_end_request_short (a ∷ b ∷ c ∷ e ∷ s ∷ rest) h = ground arith

-- If one to seven bytes of the eight of an `EndRequest` record have arrived, `RecordReader::read`
-- panics, both when they follow the header and when the header was read before: it parses what
-- has arrived as if it were the whole body.
pub read_end_request_split :
    (h : Header) (d : Bytes)
    → IsWire h
    → h.rtype ≡ RecordType.end_request
    → h.content_length ≡ 8
    → 0 < length d
    → length d < 8
    → (read (record { current = none }) (Header.bytes h ++ d) ≡ panic)
      × (read (record { current = some h }) d ≡ panic)
read_end_request_split h d w t n some_byte short = (read_header h d w ∙ stop, read-some h d ∙ stop)
  where
    stop : read_body h d ≡ panic
    stop =
        read_body_partial h d (omega arith) w.content_length_u16 some_byte
        ∙ unfold emit parse_body in rw (t, parse_end_request_short d short) refl
