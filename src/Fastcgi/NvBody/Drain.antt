-- ===== src/Fastcgi/NvBody/Drain.antt =====
-- fastcgi.rs: `NVBody::drain` and the iterator `NVDrain`, after `NVBody::add`.
use async_fcgi.Base.{ℕ, zero, suc, ◌≤◌, ◌<◌, ◌≡◌, refl, ap, ◌∙◌, arith, some}
use async_fcgi.Base.{List, [], ◌∷◌, ◌++◌, length, length-append, All, take_all, take}
use async_fcgi.Base.Result.{Res, ok}
use async_fcgi.Bytes.{Bytes}
use async_fcgi.BufVec.{BufList, IsProper, remaining}
use async_fcgi.BufVec.Laws.{contents, remaining-length}
use async_fcgi.Fastcgi.NameValuePair.{NameValuePair}
use async_fcgi.Fastcgi.NameValuePair
use async_fcgi.Fastcgi.NameValuePair.Laws.{encoding, IsShort, parse-encoding, length-encoding}
use async_fcgi.Fastcgi.NvBody.{NvBody, drain, next, collect}
use async_fcgi.Fastcgi.NvBody.Laws.{IsValid}

-- `Buf::copy_to_bytes` of the crate `bytes`, on a list that meets the contract of `Buf`: the first
-- `n` bytes, if there are as many.
abbrev pub CopiesBytes : (BufList → ℕ → Res Bytes) → Type 0
CopiesBytes copy =
    (l : BufList) (n : ℕ) → IsProper l → n ≤ remaining l → copy l n ≡ ok (take n (contents l))

-- Let `copy_to_bytes` take the front of a list without empty buffers. Then `drain` hands over
-- every byte of a body that is valid and has no empty buffer.
pub drain-contents :
    (copy : BufList → ℕ → Res Bytes)
    → CopiesBytes copy
    → (b : NvBody) → IsValid b
    → IsProper b.pairs
    → drain copy b ≡ ok (contents b.pairs)
unfolding drain
drain-contents copy copies b v p =
    copies b.pairs b.len p (omega (arith, v.counted, remaining-length b.pairs))
    ∙ ap ok (take_all b.len (contents b.pairs) (omega (arith, v.counted)))

abbrev pub encodings : List NameValuePair → Bytes
encodings [] = []
encodings (p ∷ ps) = encoding p ++ encodings ps

next-of-parse :
    (bs : Bytes) (p : NameValuePair) (rest : Bytes)
    → 0 < length bs
    → NameValuePair.parse bs ≡ ok (p, rest)
    → next bs ≡ ok (some p, rest)
unfolding next
next-of-parse [] p rest h e = absurd (omega arith)
next-of-parse (b ∷ bs) p rest h e = rw e refl

pub encoding-pos : (p : NameValuePair) (rest : Bytes) → 0 < length (encoding p ++ rest)
unfolding NameValuePair.len
encoding-pos p rest = ground (arith, length-append (encoding p) rest, length-encoding p)

pub next-encoding :
    (p : NameValuePair) (rest : Bytes) → IsShort p → next (encoding p ++ rest) ≡ ok (some p, rest)
next-encoding p rest h = next-of-parse _ p rest (encoding-pos p rest) (parse-encoding p rest h)

-- On the encodings of pairs whose names and values have less than 128 bytes, the iterator gives
-- back the pairs, in order, and then ends, within any fuel of more rounds than there are pairs.
pub collect-encodings :
    (ps : List NameValuePair) (fuel : ℕ)
    → All IsShort ps
    → length ps < fuel
    → collect fuel (encodings ps) ≡ some (ok ps)
unfolding collect
collect-encodings ps zero h k = absurd (omega arith)
collect-encodings [] (suc fuel) h k = unfold next in refl
collect-encodings (p ∷ ps) (suc fuel) h k =
    rw (next-encoding p (encodings ps) h.0, collect, collect-encodings ps fuel h.1 (omega arith))
      refl
