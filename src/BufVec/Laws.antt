-- ===== src/BufVec/Laws.antt =====
-- bufvec.rs: `BufList` against the concatenation of its buffers, and the contract of `Buf::chunk`.
use async_fcgi.Base.{ℕ, zero, suc, ◌-◌, ◌<◌, ◌≡◌, ◌↔◌, refl, ap, ◌∙◌, arith, List, [], ◌∷◌, ◌++◌}
use async_fcgi.Base.{length, drop, flatten, length-append, drop-append_le, drop-append_ge, All}
use async_fcgi.Base.{flatten-append, append-nil, All-append}
use async_fcgi.Bytes.{Bytes}
use async_fcgi.BufVec.{BufList, push, remaining, chunk, advance, IsProper}
use async_fcgi.BufVec.{sum_remaining, advance_loop, front_chunk}

-- The bytes that the list holds.
abbrev pub contents : BufList → Bytes
contents l = flatten l.bufs

sum_remaining-length : (bufs : List Bytes) → sum_remaining bufs ≡ length (flatten bufs)
unfolding sum_remaining
sum_remaining-length [] = refl
sum_remaining-length (buf ∷ rest) =
    omega (arith, sum_remaining-length rest, length-append buf (flatten rest))

pub remaining-length : (l : BufList) → remaining l ≡ length (contents l)
unfolding remaining
remaining-length l = sum_remaining-length l.bufs

pub contents-push : (l : BufList) (buf : Bytes) → contents (push l buf) ≡ contents l ++ buf
unfolding push
contents-push l buf = flatten-append l.bufs (buf ∷ []) ∙ ap (◌++◌ (flatten l.bufs)) (append-nil buf)

advance_loop-drop :
    (bufs : List Bytes) (cnt : ℕ) → flatten (advance_loop bufs cnt) ≡ drop cnt (flatten bufs)
unfolding advance_loop
advance_loop-drop [] zero = refl
advance_loop-drop [] (suc cnt) = refl
advance_loop-drop (front ∷ rest) zero = refl
advance_loop-drop (front ∷ rest) (suc n) = ground (
  arith,
  advance_loop-drop rest (suc n - length front),
  drop-append_le (suc n) front (flatten rest),
  drop-append_ge (suc n) front (flatten rest),
)

-- `BufList::advance` drops so many bytes from the front of the contents, across any number of
-- buffers.
contents-advance : (l : BufList) (cnt : ℕ) → contents (advance l cnt) ≡ drop cnt (contents l)
unfolding advance
contents-advance l cnt = advance_loop-drop l.bufs cnt

pub push-IsProper :
    (l : BufList) (buf : Bytes) → IsProper l → 0 < length buf → IsProper (push l buf)
unfolding push
push-IsProper l buf p h = All-append _ l.bufs (buf ∷ []) p (h, tt)

-- The contract of `Buf::chunk`: an empty chunk means that nothing is left.
abbrev pub MeetsChunkContract : BufList → Type 0
MeetsChunkContract l = (chunk l ≡ []) ↔ (remaining l ≡ 0)

front_contract :
    (bufs : List Bytes)
    → All (λ buf. 0 < length buf) bufs
    → (front_chunk bufs ≡ []) ↔ (sum_remaining bufs ≡ 0)
unfolding front_chunk sum_remaining
front_contract [] p = (λ _. refl, λ _. refl)
front_contract ([] ∷ rest) p = absurd (omega arith)
front_contract ((b ∷ buf) ∷ rest) p = (λ e. cc, λ e. absurd (omega arith))

-- A list without empty buffers meets the contract of `Buf::chunk`: the chunk is empty exactly
-- when nothing remains.
pub IsProper-MeetsChunkContract : (l : BufList) → IsProper l → MeetsChunkContract l
unfolding chunk remaining
IsProper-MeetsChunkContract l p = front_contract l.bufs p

-- With an empty buffer in front of other bytes, the chunk is empty although bytes remain, and
-- advancing by the length of the chunk changes nothing.
empty_front_stalls :
    (rest : List Bytes) (l : BufList)
    → l ≡ record { bufs = [] ∷ rest }
    → 0 < length (flatten rest)
    → (chunk l ≡ []) × (0 < remaining l) × (advance l (length (chunk l)) ≡ l)
unfolding chunk remaining advance advance_loop
empty_front_stalls rest l e h = rw e (refl, omega (arith, sum_remaining-length rest), refl)
