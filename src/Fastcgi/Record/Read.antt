-- ===== src/Fastcgi/Record/Read.antt =====
-- fastcgi.rs: `Record::read` on whole records and on records that are not all there yet.
use async_fcgi.Base.{ℕ, ◌+◌, ◌<◌, ◌≡◌, refl, ap, arith, inl, inr, none, some, true, false}
use async_fcgi.Base.{[], ◌++◌, length, length-append, append_assoc, Bool-cases, ltb}
use async_fcgi.Base.{append_split, ltb-eq-false, lt→ltb}
use async_fcgi.Base.Result.{ok, ◌>>=◌}
use async_fcgi.Bytes.{Bytes, slice, advance, slice-append, advance-append}
use async_fcgi.Fastcgi.Header.{Header, IsWire, length-bytes, parse-bytes}
use async_fcgi.Fastcgi.Header
use async_fcgi.Fastcgi.Record.{parse_body, read, read_rest}

-- A record on the wire: a header, a content and a padding of the lengths that it announces.
pub record IsFrame (h : Header) (content pad : Bytes) : Type 0 where
  pub wire : IsWire h
  pub content_fits : length content ≡ h.content_length
  pub padding_fits : length pad ≡ h.padding_length

abbrev pub frame : Header → Bytes → Bytes → Bytes
frame h content pad = Header.bytes h ++ (content ++ pad)

pub slice_front : (xs ys : Bytes) (n : ℕ) → length xs ≡ n → slice (xs ++ ys) 0 n ≡ ok xs
slice_front xs ys n h = rw (← h) (rw (← plus_zero) (slice-append [] xs ys))
  where
    plus_zero : 0 + length xs ≡ length xs
    plus_zero = omega arith

pub advance_front : (xs ys : Bytes) (n : ℕ) → length xs ≡ n → advance (xs ++ ys) n ≡ ok ys
advance_front xs ys n h = rw (← h) (advance-append xs ys)

read-of-header :
    (h : Header) (behind : Bytes)
    → IsWire h
    → read (Header.bytes h ++ behind) ≡ read_rest (Header.bytes h ++ behind) h
unfolding read
read-of-header h behind w =
    rw
      (
        ltb-eq-false (length (Header.bytes h ++ behind)) 8
            (omega (arith, length-append (Header.bytes h) behind, length-bytes h)),
        parse-bytes h behind w,
      )
      refl

-- `Record::read` of a record whose header fits the wire and whose content and padding have the
-- announced lengths gives that header and what the parser for its type makes of just the content;
-- the bytes behind the record are left.
pub read-frame :
    (h : Header) (content pad rest : Bytes)
    → IsFrame h content pad
    → read (frame h content pad ++ rest)
      ≡ (parse_body content h.rtype >>= λ b. ok (some (record { header = h; body = b }), rest))
unfolding read_rest
read-frame h content pad rest f =
    let behind : Bytes = content ++ (pad ++ rest) in
    let all : frame h content pad ++ rest ≡ Header.bytes h ++ behind = simp append_assoc in
    let enough : ltb (length (Header.bytes h ++ behind)) (h.content_length + h.padding_length + 8)
        ≡ false =
      ltb-eq-false _ _ (
        omega (
          arith,
          length-append (Header.bytes h) behind,
          length-append content (pad ++ rest),
          length-append pad rest,
          length-bytes h,
          f.content_fits,
          f.padding_fits,
        )) in
    let skipped : advance behind (h.content_length + h.padding_length) ≡ ok rest =
      rw (← append_assoc content pad rest) (
        advance_front (content ++ pad) rest _
          (omega (arith, length-append content pad, f.content_fits, f.padding_fits))) in
    rw (all, read-of-header h behind f.wire, read_rest, enough)
      (rw
        (
          advance_front (Header.bytes h) behind 8 (length-bytes h),
          slice_front content (pad ++ rest) h.content_length f.content_fits,
          skipped,
        )
        refl)

-- On a proper front of a record whose header fits the wire and whose content and padding have the
-- announced lengths, `Record::read` returns `None` and leaves the data untouched.
pub read_incomplete :
    (h : Header) (content pad front back : Bytes)
    → IsFrame h content pad
    → front ++ back ≡ frame h content pad
    → 0 < length back
    → read front ≡ ok (none, front)
unfolding read read_rest
read_incomplete h content pad front back f e more =
    let total : length front + length back ≡ 8 + h.content_length + h.padding_length = omega (
      arith,
      length-append front back,
      ap length e,
      length-append (Header.bytes h) (content ++ pad),
      length-append content pad,
      length-bytes h,
      f.content_fits,
      f.padding_fits,
    ) in
    elim (Bool-cases (ltb (length front) 8)) [
      | inl short ↦ rw (read, short) refl
      | inr header ↦
          let (d, cut, _) =
            append_split front back (Header.bytes h) (content ++ pad) e
              (ground (arith, length-bytes h)) in
          let missing : ltb (length (Header.bytes h ++ d)) (h.content_length + h.padding_length + 8)
              ≡ true =
            lt→ltb _ _ (omega (arith, ap length cut)) in
          rw (cut) (rw (read-of-header h d f.wire, read_rest, missing) refl)
    ]
