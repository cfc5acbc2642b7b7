-- ===== src/Client/Receive.antt =====
-- client/con_pool.rs: `send_and_receive`, which reads the records of an answer.
use async_fcgi.Base.{
  ℕ, zero, suc, ◌+◌, ◌<◌, ◌≡◌, refl, ◌∙◌, arith, false, inl, inr, none, some, Option,
}
use async_fcgi.Base.{
  List, [], ◌∷◌, ◌++◌, length, length-append, append-nil, append_assoc, flatten, eq_nil_of_length,
  All, ltb, ltb→lt, not_ltb→le, Bool-cases,
}
use async_fcgi.Base.Result.{Res, ok, panic, ◌>>=◌}
use mathlib.Core.Option
use async_fcgi.Bytes.{Bytes}
use async_fcgi.Fastcgi.Header.{Header}
use async_fcgi.Fastcgi.Record.{Record, Body, read, parse_body}
use async_fcgi.Fastcgi.Record
use async_fcgi.Fastcgi.Record.Read.{IsFrame, frame, read-frame, read_incomplete}

-- The inner loop: the records that are whole, and what is left. `none` means that the fuel ran out.
read_records : ℕ → Bytes → Option (Res (List Record × Bytes))
read_records zero pbuf = none
read_records (suc fuel) pbuf = elim (Record.read pbuf) [
  | panic ↦ some panic
  | ok (none, rest) ↦ some (ok ([], rest))
  | ok (some r, rest) ↦
      Option.map (λ res. res >>= λ (recs, rest'). ok (r ∷ recs, rest')) (read_records fuel rest)
]

-- The outer loop, over what each read of the socket gives; a read of no byte is the end of the stream.
-- `none` means that it reads on.
pub send_and_receive : Bytes → List Bytes → Option (Res (List Record))
unfolding read_records
send_and_receive rbuf [] = none
send_and_receive rbuf (d ∷ reads) = elim (read_records (length (rbuf ++ d) + 2) (rbuf ++ d)) [
  | none ↦ none
  | some panic ↦ some panic
  | some (ok (recs, [])) ↦ some (ok recs)
  | some (ok (recs, b ∷ bs)) ↦
      Option.map (λ res. res >>= λ more. ok (recs ++ more)) (send_and_receive (b ∷ bs) reads)
]

no_record :
    (o : Option (Res (List Record))) → Option.map (λ res. res >>= λ more. ok ([] ++ more)) o ≡ o
no_record none = refl
no_record (some panic) = refl
no_record (some (ok recs)) = refl

-- What is left without a record is read on with.
keeps_rest :
    (rbuf d p : Bytes) (reads : List Bytes)
    → read_records (length (rbuf ++ d) + 2) (rbuf ++ d) ≡ some (ok ([], p))
    → 0 < length p
    → send_and_receive rbuf (d ∷ reads) ≡ send_and_receive p reads
unfolding send_and_receive
keeps_rest rbuf d [] reads e h = absurd (omega arith)
keeps_rest rbuf d (b ∷ bs) reads e h =
    rw (e, send_and_receive) (no_record (send_and_receive (b ∷ bs) reads))

module _ (h : Header) (content pad : Bytes) (f : IsFrame h content pad) where
  read_records_incomplete :
      (fuel : ℕ) (front back : Bytes)
      → front ++ back ≡ frame h content pad
      → 0 < length back
      → read_records (fuel + 2) front ≡ some (ok ([], front))
  unfolding read_records
  read_records_incomplete fuel front back e more =
      rw (more_fuel, read_records, read_incomplete h content pad front back f e more) refl
    where
      more_fuel : fuel + 2 ≡ suc (fuel + 1)
      more_fuel = omega arith

  -- As long as bytes of the record are missing, it reads on with what it has.
  reads_on :
      (rbuf d back : Bytes) (reads : List Bytes)
      → (rbuf ++ d) ++ back ≡ frame h content pad
      → 0 < length back
      → 0 < length (rbuf ++ d)
      → send_and_receive rbuf (d ∷ reads) ≡ send_and_receive (rbuf ++ d) reads
  reads_on rbuf d back reads e more some_byte =
      keeps_rest rbuf d (rbuf ++ d) reads
        (read_records_incomplete (length (rbuf ++ d)) (rbuf ++ d) back e more) some_byte

  read_records-frame :
      (fuel : ℕ) (b : Body)
      → parse_body content h.rtype ≡ ok b
      → read_records (fuel + 2) (frame h content pad)
        ≡ some (ok ((record { header = h; body = b }) ∷ [], []))
  unfolding read_records read
  read_records-frame fuel b p = rw (more_fuel, read_records, whole, one_more, read_records) refl
    where
      more_fuel : fuel + 2 ≡ suc (fuel + 1)
      more_fuel = omega arith

      one_more : fuel + 1 ≡ suc fuel
      one_more = omega arith

      whole : Record.read (frame h content pad) ≡ ok (some (record { header = h; body = b }), [])
      whole = rw (append-nil (frame h content pad), p) at (read-frame h content pad [] f)

  -- An answer of one record, whose header fits the wire, whose content and padding have the
  -- announced lengths and whose content the parser takes, is received as that record when the
  -- reads of the socket, behind what is buffered, give the missing bytes in pieces of which none
  -- is empty.
  pub send_and_receive-frame :
      (reads : List Bytes) (rbuf : Bytes) (b : Body)
      → parse_body content h.rtype ≡ ok b
      → rbuf ++ flatten reads ≡ frame h content pad
      → 0 < length (flatten reads)
      → All (λ d. 0 < length d) reads
      → send_and_receive rbuf reads ≡ some (ok ((record { header = h; body = b }) ∷ []))
  unfolding send_and_receive
  send_and_receive-frame [] rbuf b p e more some_bytes = absurd (omega arith)
  send_and_receive-frame (d ∷ reads) rbuf b p e more some_bytes =
      elim (Bool-cases (ltb 0 (length (flatten reads)))) [
        | inl missing ↦
            reads_on rbuf d (flatten reads) reads (append_assoc rbuf d (flatten reads) ∙ e)
              (ltb→lt _ _ missing) (omega (arith, length-append rbuf d, some_bytes.0))
            ∙ send_and_receive-frame reads (rbuf ++ d) b p (append_assoc rbuf d (flatten reads) ∙ e)
                (ltb→lt _ _ missing) some_bytes.1
        | inr none_missing ↦
            rw
              (
                all_there none_missing,
                send_and_receive,
                read_records-frame (length (frame h content pad)) b p,
              )
              refl
      ]
    where
      none_left : ltb 0 (length (flatten reads)) ≡ false → flatten reads ≡ []
      none_left n = eq_nil_of_length (flatten reads) (omega (arith, not_ltb→le _ _ n))

      all_there : ltb 0 (length (flatten reads)) ≡ false → rbuf ++ d ≡ frame h content pad
      all_there n = rw (none_left n, append-nil d) at e

  -- If the stream ends inside a record, whose header fits the wire and whose content and padding
  -- have the announced lengths, with a part of it read, `send_and_receive` does not return,
  -- however often it reads the end of the stream.
  pub send_and_receive_cut :
      (ends : List Bytes) (front back : Bytes)
      → front ++ back ≡ frame h content pad
      → 0 < length front
      → 0 < length back
      → All (λ d. d ≡ []) ends
      → send_and_receive [] (front ∷ ends) ≡ none
  send_and_receive_cut ends front back e some_byte more at_end =
      reads_on [] front back ends e more some_byte ∙ go ends at_end
    where
      go : (ds : List Bytes) → All (λ d. d ≡ []) ds → send_and_receive front ds ≡ none
      go [] a = unfold send_and_receive in refl
      go (d ∷ ds) a = rw (a.0) (
          reads_on front [] back ds (rw (append-nil front) e) more (rw (append-nil front) some_byte)
          ∙ rw (append-nil front) (go ds a.1))
