-- ===== src/Fastcgi/NvBody.antt =====
-- fastcgi.rs: `NVBody`, the pairs of one record, and the iterator over what it holds.
pub mod Laws
pub mod Drain
use async_fcgi.Base.{ℕ, zero, suc, ◌+◌, ◌&&◌, Bool, List, [], ◌∷◌, ◌++◌, bit_or, ltb, leb}
use async_fcgi.Base.{◌==◌, if◌then◌else◌, length, Option, none, some}
use async_fcgi.Base.Result.{Res, ok, panic, ◌>>=◌}
use async_fcgi.Bytes.{Bytes, as_u8, as_u16, as_u32, put_u8, put_u32}
use async_fcgi.BufVec.{BufList}
use async_fcgi.BufVec
use mathlib.Core.Option
use async_fcgi.Fastcgi.NameValuePair.{NameValuePair}
use async_fcgi.Fastcgi.NameValuePair

pub record NvBody : Type 0 where
  pub pairs : BufList
  pub len : ℕ

-- `Body::MAX_LENGTH`
abbrev pub max_length : ℕ
max_length = 0xffff

unfoldable pub new : NvBody
unfolding BufVec.new
new = record { pairs = BufVec.new; len = 0 }

unfoldable pub fits : NvBody → NameValuePair → Bool
unfolding NameValuePair.len
fits b pair = let l = NameValuePair.len pair + b.len in leb l max_length

-- `Result<(), ()>`
pub data Added : Type 0 where
  added : Added
  refused : Added

-- The bytes of one length as `add` writes them: a long one has its top bit set.
put_length : Bytes → ℕ → Bytes
put_length buf n = if ltb 0x7f n then put_u32 buf (as_u32 n) else put_u8 buf (as_u8 n)

-- The tail of `add`, from the two lengths on: the marked lengths go in front of the data.
push_pair : NvBody → NameValuePair → ℕ → ℕ → NvBody × Added
unfolding put_length BufVec.push
push_pair b pair ln lv =
    let header = put_length (put_length [] ln) lv in
    let pairs1 = BufVec.push b.pairs header in
    let pairs2 = BufVec.push pairs1 pair.name_data in
    let pairs3 = if ltb 0 lv then BufVec.push pairs2 pair.value_data else pairs2 in
    (record b { pairs = pairs3 }, added)

-- `len` is set before the checks on the two lengths.
unfoldable pub add : NvBody → NameValuePair → NvBody × Added
unfolding NameValuePair.len push_pair
add b pair =
    let l = NameValuePair.len pair + b.len in
    if ltb max_length l
    then (b, refused)
    else (let b1 = record b { len = as_u16 l } in
        let ln = length pair.name_data in
        let lv = length pair.value_data in
        let ln1 = if ltb 0x7f ln then bit_or ln 0x80000000 else ln in
        let lv1 = if ltb 0x7f lv then bit_or lv 0x80000000 else lv in
        if ltb max_length (ln + lv)
        then (b1, refused)
        else if ltb 0x7f ln && ltb 0x7fffffff ln
        then (b1, refused)
        else if ltb 0x7f lv && ltb 0x7fffffff lv
        then (b1, refused)
        else push_pair b1 pair ln1 lv1)

unfoldable pub from_bytes : Bytes → NvBody
unfolding BufVec.new BufVec.push
from_bytes buf =
    let n = as_u16 (length buf) in
    if ltb 0 n
    then record { pairs = BufVec.push BufVec.new buf; len = n }
    else record { pairs = BufVec.new; len = n }

-- `drain` copies the pairs into one buffer by `Buf::copy_to_bytes`, which the crate `bytes`
-- provides over `remaining`, `chunk` and `advance`; here it is the argument `copy_to_bytes`.
pub drain : (BufList → ℕ → Res Bytes) → NvBody → Res Bytes
drain copy_to_bytes b = copy_to_bytes b.pairs b.len

-- One step of the iterator `NVDrain`: the next pair, if bytes are left, and the state after it.
unfoldable pub next : Bytes → Res (Option NameValuePair × Bytes)
unfolding NameValuePair.parse
next [] = ok (none, [])
next (b ∷ bs) = do (pair, rest) ← NameValuePair.parse (b ∷ bs); ok (some pair, rest)

-- A loop `for pair in drain`: the pairs until the iterator ends. `none` means out of fuel.
pub collect : ℕ → Bytes → Option (Res (List NameValuePair))
collect zero bs = none
collect (suc fuel) bs = elim (next bs) [
  | panic ↦ some panic
  | ok (none, rest) ↦ some (ok [])
  | ok (some pair, rest) ↦ Option.map (λ r. r >>= λ pairs. ok (pair ∷ pairs)) (collect fuel rest)
]
