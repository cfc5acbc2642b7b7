-- ===== src/Fastcgi/RecordReader/Steps.antt =====
-- fastcgi.rs: one call of `RecordReader::read`, case by case.
use async_fcgi.Base.{◌-◌, ◌<◌, ◌≡◌, refl, sym, arith, none, some}
use async_fcgi.Base.{◌^◌, [], ◌++◌, length, length-append, append-nil, lt→ltb, ltb-eq-false}
use async_fcgi.Base.Result.{ok}
use async_fcgi.Bytes.{Bytes, as_u16, slice, advance}
use async_fcgi.Fastcgi.Header.{Header, IsWire, parse-bytes, length-bytes}
use async_fcgi.Fastcgi.Header
use async_fcgi.Fastcgi.Record.Read.{slice_front, advance_front}
use async_fcgi.Fastcgi.RecordReader.{read, read_body, emit}
use async_fcgi.Fastcgi.RecordReader.{read_from, read_partial, take_body, skip_padding}

slice_whole : (d : Bytes) → slice d 0 (length d) ≡ ok d
slice_whole d = rw (append-nil d) at (slice_front d [] (length d) refl)

advance_whole : (d : Bytes) → advance d (length d) ≡ ok []
advance_whole d = rw (append-nil d) at (advance_front d [] (length d) refl)

-- A body that is cut short is handed out as far as it goes, without padding.
pub read_body_partial :
    (h : Header) (d : Bytes)
    → length d < h.content_length
    → h.content_length < 2 ^ 16
    → 0 < length d
    → read_body h d
      ≡ emit
          (record h { content_length = length d; padding_length = 0 })
          d
          (some (record h { content_length = h.content_length - length d }))
          []
unfolding read_body read_partial take_body skip_padding
read_body_partial h d short fits some_byte =
    let small : as_u16 (length d) ≡ length d = omega arith in
    rw
      (
        lt→ltb (length d) h.content_length short,
        ltb-eq-false (length d) 1 some_byte,
        small,
        slice_whole d,
        advance_whole d,
        advance_front [] [] 0 refl,
      )
      refl

-- If nothing of the body is there, the header is kept.
pub read_body_nothing :
    (h : Header)
    → 0 < h.content_length
    → read_body h [] ≡ ok (none, record { current = some h }, [])
unfolding read_body read_partial
read_body_nothing h more =
    let same : h.content_length - 0 ≡ h.content_length = omega arith in
    rw (lt→ltb 0 h.content_length more, same) refl

-- A whole body with its padding.
pub read_body_whole :
    (h : Header) (p q rest : Bytes)
    → length p ≡ h.content_length
    → length q ≡ h.padding_length
    → read_body h (p ++ (q ++ rest)) ≡ emit h p none rest
unfolding read_body read_partial take_body skip_padding
read_body_whole h p q rest hp hq =
    rw
      (
        ltb-eq-false (length (p ++ (q ++ rest))) h.content_length
            (omega (arith, length-append p (q ++ rest))),
        slice_front p (q ++ rest) h.content_length hp,
        advance_front p (q ++ rest) h.content_length hp,
        ltb-eq-false (length (q ++ rest)) h.padding_length (omega (arith, length-append q rest)),
        advance_front q rest h.padding_length hq,
      )
      refl

-- A whole body of which the padding is not complete.
pub read_body_unpadded :
    (h : Header) (p q : Bytes)
    → length p ≡ h.content_length
    → 0 < length p
    → length q < h.padding_length
    → read_body h (p ++ q) ≡ emit h p (some (record h { content_length = 0 })) q
unfolding read_body read_partial take_body skip_padding
read_body_unpadded h p q hp some_byte hq =
    rw
      (
        ltb-eq-false (length (p ++ q)) h.content_length (omega (arith, length-append p q)),
        slice_front p q h.content_length hp,
        advance_front p q h.content_length hp,
        lt→ltb (length q) h.padding_length hq,
        ltb-eq-false h.content_length 1 (omega arith),
      )
      refl

-- Padding alone is waited for.
pub read_body_padding :
    (h : Header) (q : Bytes)
    → h.content_length ≡ 0
    → length q < h.padding_length
    → read_body h q ≡ ok (none, record { current = some h }, q)
unfolding read_body read_partial take_body skip_padding
read_body_padding h q hc hq =
    rw
      (
        ltb-eq-false (length q) h.content_length (omega arith),
        slice_front [] q h.content_length (sym hc),
        advance_front [] q h.content_length (sym hc),
        lt→ltb (length q) h.padding_length hq,
        lt→ltb h.content_length 1 (omega arith),
      )
      refl

pub read-some : (h : Header) (d : Bytes) → read (record { current = some h }) d ≡ read_body h d
unfolding read read_from
read-some h d = refl

-- Less than a header leaves the data untouched.
pub read_short :
    (d : Bytes)
    → length d < 8
    → read (record { current = none }) d ≡ ok (none, record { current = none }, d)
unfolding read read_from
read_short d short = rw (lt→ltb (length d) 8 short) refl

pub read_header :
    (h : Header) (d : Bytes)
    → IsWire h
    → read (record { current = none }) (Header.bytes h ++ d) ≡ read_body h d
unfolding read read_from
read_header h d w =
    rw
      (
        ltb-eq-false (length (Header.bytes h ++ d)) 8
            (omega (arith, length-append (Header.bytes h) d, length-bytes h)),
        parse-bytes h d w,
      )
      refl
