-- ===== src/Fastcgi/RecordReader/Fragments.antt =====
-- fastcgi.rs: `RecordReader` on a stream of output records that arrives in pieces.
use async_fcgi.Base.{ℕ, ◌+◌, ◌-◌, ◌≤◌, ◌<◌, ◌≡◌, refl, ap, sym, ◌∙◌, arith, inl, inr, none, some}
use async_fcgi.Base.{Option, List, [], ◌∷◌, ◌++◌, length, length-append, append_assoc}
use async_fcgi.Base.{Bool-cases, ltb, ltb→lt, append_split}
use async_fcgi.Base.Result.{Res, ok}
use mathlib.Core.List.{map-append}
use async_fcgi.Bytes.{Bytes}
use async_fcgi.Fastcgi.Types.{RecordType}
use async_fcgi.Fastcgi.Header.{Header, length-bytes}
use async_fcgi.Fastcgi.Header
use async_fcgi.Fastcgi.Record.{Record, parse_body}
use async_fcgi.Fastcgi.Record.Read.{IsFrame}
use async_fcgi.Fastcgi.RecordReader.{RecordReader, Step, read, read_body, emit}
use async_fcgi.Fastcgi.RecordReader.Output.{
  IsOutput, std_out, std_err, Output, tag, outputs, Expect, done, header, content,
}
use async_fcgi.Fastcgi.RecordReader.Output.{body_of, payload-body_of, IsOutputRecord}
use async_fcgi.Fastcgi.RecordReader.Steps.{
  read_body_partial, read_body_nothing, read_body_whole, read_body_unpadded,
}
use async_fcgi.Fastcgi.RecordReader.Steps.{read_body_padding, read-some, read_short, read_header}

-- A weight that falls with every record that is handed out.
abbrev pub weight : Option Header → ℕ
weight none = 0
weight (some h) = 1

-- What a call of `read` does on such a stream, of which `future` has not arrived yet.
pub data Progress (before : ℕ) (future : Bytes) (out : List Output) (result : Res Step)
    : Type 0 where
  waits :
      (r : RecordReader) (left : Bytes)
      → result ≡ ok (none, r, left)
      → Expect r.current (left ++ future) out
      → (future ≡ [] → (out ≡ []) × (left ≡ []) × (r.current ≡ none))
      → Progress before future out result
  gives :
      (rec : Record) (r : RecordReader) (left : Bytes) (out' : List Output)
      → result ≡ ok (some rec, r, left)
      → Expect r.current (left ++ future) out'
      → out ≡ outputs rec ++ out'
      → length left + weight r.current < before
      → IsOutputRecord rec
      → Progress before future out result

Progress-mono :
    {m n : ℕ} {future : Bytes} {out : List Output} {result : Res Step}
    → m ≤ n
    → Progress m future out result
    → Progress n future out result
Progress-mono h (waits r left e ex z) = waits r left e ex z
Progress-mono h (gives rec r left out' e ex f less o) = gives rec r left out' e ex f (omega arith) o

parse_body-output :
    {t : RecordType} (o : IsOutput t) (b : Bytes) → parse_body b t ≡ ok (body_of o b)
unfolding parse_body
parse_body-output std_out b = refl
parse_body-output std_err b = refl

emit-output :
    (h : Header) (b : Bytes) (current : Option Header) (rest : Bytes) (o : IsOutput h.rtype)
    → emit h b current rest
      ≡ ok (some (record { header = h; body = body_of o b }), record { current = current }, rest)
unfolding emit
emit-output h b current rest o = rw (parse_body-output o b) refl

length-zero : (xs : Bytes) → length xs < 1 → xs ≡ []
length-zero [] h = refl
length-zero (x ∷ xs) h = absurd (omega arith)

-- A record that is handed out takes its bytes of output off what is expected.
emit-Progress :
    {before : ℕ} {future : Bytes} {out' : List Output} {result : Res Step} (h nh : Header)
    (b : Bytes) (current : Option Header) (rest : Bytes)
    → IsOutput nh.rtype
    → nh.request_id ≡ h.request_id
    → nh.rtype ≡ h.rtype
    → result ≡ emit nh b current rest
    → Expect current (rest ++ future) out'
    → length rest + weight current < before
    → Progress before future (tag h b ++ out') result
emit-Progress h nh b current rest o same_id same_type e ex less =
    gives (record { header = nh; body = body_of o b }) (record { current = current }) rest _
      (e ∙ emit-output nh b current rest o) ex (rw (payload-body_of o b, same_id, same_type) refl)
      less (record { stream = o; bytes = b; is_body = refl })

tag-append : (h : Header) (b c : Bytes) → tag h (b ++ c) ≡ tag h b ++ tag h c
tag-append h b c = map-append _ b c

partial-Progress :
    (h : Header) (d t q behind future : Bytes) (out' : List Output)
    → IsFrame h (d ++ t) q
    → IsOutput h.rtype
    → Expect none behind out'
    → t ++ (q ++ behind) ≡ future
    → 0 < length d
    → 0 < length t
    → Progress (length d + 1) future (tag h (d ++ t) ++ out') (read_body h d)
partial-Progress h d t q behind future out' f o ex e some_byte more =
    let total = length-append d t in
    let later : Header = record h { content_length = h.content_length - length d } in
    let rest_frame : IsFrame later t q = record {
      wire = omega (arith, f.wire);
      content_fits = omega (arith, total, f.content_fits);
      padding_fits = f.padding_fits;
    } in
    rw (tag-append h d t, append_assoc)
      (emit-Progress h (record h { content_length = length d; padding_length = 0 }) d (some later)
        [] o refl refl
        (read_body_partial h d (omega (arith, total, f.content_fits)) f.wire.content_length_u16
          some_byte)
        (rw (← e) (content rest_frame o ex)) (omega arith))

-- The body is longer than what has arrived.
short-Progress :
    (h : Header) (d p q behind future : Bytes) (out' : List Output)
    → IsFrame h p q
    → IsOutput h.rtype
    → Expect none behind out'
    → p ++ (q ++ behind) ≡ d ++ future
    → length d < length p
    → Progress (length d + 1) future (tag h p ++ out') (read_body h d)
short-Progress h [] p q behind future out' f o ex e short =
    waits (record { current = some h }) [] (read_body_nothing h (omega (arith, f.content_fits)))
      (rw (← e) (content f o ex))
      (λ z. absurd (omega (arith, ap length (e ∙ z), length-append p (q ++ behind))))
short-Progress h (b ∷ d) p q behind future out' f o ex e short =
    let (t, cut, ahead) = append_split p (q ++ behind) (b ∷ d) future e (omega arith) in
    rw (cut) (
      partial-Progress h (b ∷ d) t q behind future out' (rw cut at f) o ex ahead (omega arith)
        (omega (arith, ap length cut, length-append (b ∷ d) t)))

-- The body is there and the padding is not.
unpadded-Progress :
    (h : Header) (p d1 q behind future : Bytes) (out' : List Output)
    → IsFrame h p q
    → IsOutput h.rtype
    → Expect none behind out'
    → d1 ++ future ≡ q ++ behind
    → length d1 < length q
    → Progress (length (p ++ d1) + 1) future (tag h p ++ out') (read_body h (p ++ d1))
unpadded-Progress h [] d1 q behind future out' f o ex e short =
    waits (record { current = some h }) d1
      (read_body_padding h d1 (sym f.content_fits) (omega (arith, f.padding_fits)))
      (rw e (content f o ex))
      (λ z.
        absurd (
          omega (arith, ap length e, ap length z, length-append d1 future, length-append q behind)))
unpadded-Progress h (b ∷ p) d1 q behind future out' f o ex e short =
    let h0 : Header = record h { content_length = 0 } in
    let frame0 : IsFrame h0 [] q = record {
      wire = omega (arith, f.wire);
      content_fits = refl;
      padding_fits = f.padding_fits;
    } in
    emit-Progress h h (b ∷ p) (some h0) d1 o refl refl
      (read_body_unpadded h (b ∷ p) d1 f.content_fits (omega arith) (omega (arith, f.padding_fits)))
      (rw e (content frame0 o ex)) (omega (arith, length-append p d1))

read_body-Progress :
    (h : Header) (d future S : Bytes) (out : List Output)
    → Expect (some h) S out
    → S ≡ d ++ future
    → Progress (length d + 1) future out (read_body h d)
read_body-Progress h d future S out
      (content {payload = p} {pad = q} {behind = behind} {out = out'} f o ex) e =
    elim (Bool-cases (ltb (length d) (length p))) [
      | inl short ↦ short-Progress h d p q behind future out' f o ex e (ltb→lt _ _ short)
      | inr full ↦
          let (d1, cut, ahead) = append_split d future p (q ++ behind) (sym e) (ground arith) in
          rw cut (elim (Bool-cases (ltb (length d1) (length q))) [
            | inl short ↦
                unpadded-Progress h p d1 q behind future out' f o ex ahead (ltb→lt _ _ short)
            | inr padded ↦
                let (d2, cut2, ahead2) = append_split d1 future q behind ahead (ground arith) in
                rw cut2 (
                  emit-Progress h h p none d2 o refl refl
                    (read_body_whole h p q d2 f.content_fits f.padding_fits) (rw ahead2 ex)
                    (omega (arith, length-append p (q ++ d2), length-append q d2)))
          ])
    ]

between-Progress :
    (d future S : Bytes) (out : List Output)
    → Expect none S out
    → S ≡ d ++ future
    → Progress (length d + 0) future out (read (record { current = none }) d)
between-Progress d future S out done e =
    let nothing : d ≡ [] = length-zero d (omega (arith, ap length e, length-append d future)) in
    waits (record { current = none }) d (read_short d (omega (arith, ap length nothing)))
      (rw (← e) done) (λ z. (refl, nothing, refl))
between-Progress d future S out (header {h = h} {behind = behind} w o ex) e =
    elim (Bool-cases (ltb (length d) 8)) [
      | inl short ↦
          waits (record { current = none }) d (read_short d (ltb→lt _ _ short))
            (rw (← e) (header w o ex))
            (λ z. absurd (
              omega (
                arith,
                ltb→lt _ _ short,
                ap length e,
                ap length z,
                length-append d future,
                length-append (Header.bytes h) behind,
                length-bytes h,
              )))
      | inr enough ↦
          let (d1, cut, ahead) =
            append_split d future (Header.bytes h) behind (sym e)
              (ground (arith, length-bytes h)) in
          rw (cut, read_header h d1 w)
            (Progress-mono (omega (arith, length-append (Header.bytes h) d1, length-bytes h))
              (read_body-Progress h d1 future behind out ex (sym ahead)))
    ]

read_from-Progress :
    (current : Option Header) (d future : Bytes) (out : List Output)
    → Expect current (d ++ future) out
    → Progress (length d + weight current) future out (read (record { current = current }) d)
read_from-Progress none d future out ex = between-Progress d future (d ++ future) out ex refl
read_from-Progress (some h) d future out ex =
    rw (read-some h d) (read_body-Progress h d future (d ++ future) out ex refl)

-- On a stream of whole output records `read` never panics. It hands out the next bytes of output,
-- or waits for more.
pub read-Progress :
    (r : RecordReader) (d future : Bytes) (out : List Output)
    → Expect r.current (d ++ future) out
    → Progress (length d + weight r.current) future out (read r d)
read-Progress r d future out ex = read_from-Progress r.current d future out ex
