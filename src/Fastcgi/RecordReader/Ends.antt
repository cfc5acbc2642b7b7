-- ===== src/Fastcgi/RecordReader/Ends.antt =====
-- fastcgi.rs: the loop over `RecordReader::read` ends on every input.
use async_fcgi.Base.{ℕ, zero, suc, ◌+◌, ◌≤◌, ◌<◌, ◌≡◌, ◌≢◌, refl, ap, arith, none, some, inl, inr}
use async_fcgi.Base.{Option, length, length-drop, drop, ltb, leb, Bool-cases, leb→le, ◌⊎◌}
use async_fcgi.Base.Result.{Res, ok, panic, Res-cases}
use mathlib.Core.Option
use async_fcgi.Bytes.{Bytes, advance, slice}
use async_fcgi.Fastcgi.Header.{Header}
use async_fcgi.Fastcgi.Header
use async_fcgi.Fastcgi.Record.{Record, parse_body}
use async_fcgi.Fastcgi.RecordReader.{
  RecordReader, Step, read, read_from, read_body, read_partial, take_body, skip_padding, emit,
  read_loop,
}
use async_fcgi.Fastcgi.RecordReader.Fragments.{weight}

-- A record was handed out only if `n`, the weight of the state before, has fallen.
abbrev Falls : ℕ → Res Step → Type 0
Falls n (ok (some rec, r, left)) = length left + weight r.current < n
Falls n _ = Unit

emit-Falls :
    (n : ℕ) (h : Header) (p : Bytes) (c : Option Header) (rest : Bytes)
    → length rest + weight c < n
    → Falls n (emit h p c rest)
unfolding emit
emit-Falls n h p c rest less = elim (Res-cases (parse_body p h.rtype)) [
  | inl e ↦ rw e tt
  | inr (b, e) ↦ rw e less
]

weight-le : (c : Option Header) → weight c ≤ 1
weight-le none = omega arith
weight-le (some h) = omega arith

advance-shortens :
    (d : Bytes) (k : ℕ) (rest : Bytes) → advance d k ≡ ok rest → length rest + k ≡ length d
unfolding advance
advance-shortens d k rest e = elim (Bool-cases (leb k (length d))) [
  | inl fits ↦
      let e' : ok (drop k d) ≡ ok rest = rw fits at e in
      let same : drop k d ≡ rest = cc in
      omega (arith, ap length same, length-drop k d, leb→le k (length d) fits)
  | inr not_fits ↦ let e' : panic ≡ ok rest = rw not_fits at e in cc
]

skip_padding-Falls :
    (n len : ℕ) (h : Header) (p : Bytes) (c : Option Header) (rest : Bytes)
    → length rest + weight c < n
    → (0 < len → length rest + 1 < n)
    → Falls n (skip_padding h len p c rest)
unfolding skip_padding
skip_padding-Falls n len h p c rest less kept =
    elim (Bool-cases (ltb (length rest) h.padding_length)) [
      | inl missing ↦ elim (Bool-cases (ltb len 1)) [
        | inl nothing ↦ rw (missing, nothing) tt
        | inr some_byte ↦ rw (missing, some_byte) (emit-Falls n h p _ rest (kept (ground arith)))
      ]
      | inr there ↦ elim (Res-cases (advance rest h.padding_length)) [
        | inl e ↦ rw (there, e) tt
        | inr (behind, e) ↦
            rw (there, e)
              (emit-Falls n h p c behind
                (omega (arith, advance-shortens rest h.padding_length behind e)))
      ]
    ]

take_body-Falls :
    (n len : ℕ) (h : Header) (c : Option Header) (d : Bytes)
    → length d + weight c < n + len
    → length d + 1 < n + len ⊎ (len ≡ 0)
    → Falls n (take_body h len c d)
unfolding take_body
take_body-Falls n len h c d less kept = elim (Res-cases (slice d 0 len)) [
  | inl e ↦ rw e tt
  | inr (p, e) ↦ elim (Res-cases (advance d len)) [
    | inl e' ↦ rw (e, e') tt
    | inr (rest, e') ↦
        rw (e, e')
          (skip_padding-Falls n len h p c rest (omega (arith, advance-shortens d len rest e'))
            (λ some_byte. ground (arith, advance-shortens d len rest e')))
  ]
]

read_partial-Falls : (h : Header) (d : Bytes) → Falls (length d + 1) (read_partial h d)
unfolding read_partial
read_partial-Falls h d = elim (Bool-cases (ltb (length d) 1)) [
  | inl nothing ↦ rw nothing tt
  | inr some_byte ↦
      rw some_byte
        (take_body-Falls (length d + 1) (length d) _ (some _) d (ground arith) (inl (ground arith)))
]

read_body-Falls : (h : Header) (d : Bytes) → Falls (length d + 1) (read_body h d)
unfolding read_body
read_body-Falls h d = elim (Bool-cases (ltb (length d) h.content_length)) [
  | inl short ↦ rw short (read_partial-Falls h d)
  | inr whole ↦
      rw whole
        (take_body-Falls (length d + 1) h.content_length h none d (omega arith) (ground arith))
]

Falls-mono : (m n : ℕ) (res : Res Step) → m ≤ n → Falls m res → Falls n res
Falls-mono m n (ok (some rec, r, left)) h f = omega arith
Falls-mono m n (ok (none, r, left)) h f = tt
Falls-mono m n panic h f = tt

read_from-Falls :
    (c : Option Header) (d : Bytes) → Falls (length d + weight c) (read (record { current = c }) d)
unfolding read read_from
read_from-Falls (some h) d = read_body-Falls h d
read_from-Falls none d = elim (Bool-cases (ltb (length d) 8)) [
  | inl short ↦ rw short tt
  | inr enough ↦ elim (Res-cases (Header.parse d)) [
    | inl e ↦ rw (enough, e) tt
    | inr ((h, rest), e) ↦
        rw (enough, e)
          (Falls-mono (length rest + 1) _ _ (omega (arith, Header.parse-shortens d h rest e))
            (read_body-Falls h rest))
  ]
]

-- A call that hands out a record takes bytes off the data, or finishes a header that was kept.
read-falls :
    (r : RecordReader) (d : Bytes) (rec : Record) (r' : RecordReader) (left : Bytes)
    → read r d ≡ ok (some rec, r', left)
    → length left + weight r'.current < length d + weight r.current
read-falls r d rec r' left e = rw e at (read_from-Falls r.current d)

map-none {ℓ κ} :
    {A : Type ℓ} {B : Type κ} (f : A → B) (o : Option A) → Option.map f o ≡ none → o ≡ none
map-none f none p = refl
map-none f (some a) p = cc

read_loop-ends :
    (fuel : ℕ) (r : RecordReader) (d : Bytes)
    → length d + weight r.current < fuel
    → read_loop fuel r d ≢ none
unfolding read_loop
read_loop-ends zero r d h = absurd (omega arith)
read_loop-ends (suc fuel) r d h = elim (Res-cases (read r d)) [
  | inl e ↦ rw (e, read_loop) (λ p. cc)
  | inr ((none, r', left), e) ↦ rw (e, read_loop) (λ p. cc)
  | inr ((some rec, r', left), e) ↦
      let ih = read_loop-ends fuel r' left (omega (arith, read-falls r d rec r' left e)) in
      rw (e, read_loop) (λ p. ih (map-none _ _ p))
]

-- So the loop ends on every input, within this fuel.
pub read_loop-ne-none : (r : RecordReader) (d : Bytes) → read_loop (length d + 2) r d ≢ none
read_loop-ne-none r d = read_loop-ends (length d + 2) r d (omega (arith, weight-le r.current))
