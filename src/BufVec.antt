-- ===== src/BufVec.antt =====
-- bufvec.rs: `BufList`, a queue of byte buffers that is read as one. Its element type is `Bytes`
-- at every use. `push` is the release build's: what its debug assertion asks for is `IsProper`.
pub mod Laws
use async_fcgi.Base.{ℕ, ◌+◌, ◌-◌, ◌<◌, List, [], ◌∷◌, ◌++◌, Option, none, some, length, drop}
use async_fcgi.Base.{ltb, ◌==◌, if◌then◌else◌, All}
use async_fcgi.Bytes.{Bytes}

pub record BufList : Type 0 where
  pub bufs : List Bytes

unfoldable pub new : BufList
new = record { bufs = [] }

unfoldable pub push : BufList → Bytes → BufList
push l buf = record { bufs = l.bufs ++ (buf ∷ []) }

pop_front : List Bytes → Option Bytes × BufList
pop_front [] = (none, record { bufs = [] })
pop_front (buf ∷ rest) = (some buf, record { bufs = rest })

unfoldable pub oldest : BufList → Option Bytes × BufList
unfolding pop_front
oldest l = pop_front l.bufs

sum_remaining : List Bytes → ℕ
sum_remaining [] = 0
sum_remaining (buf ∷ rest) = length buf + sum_remaining rest

unfoldable pub remaining : BufList → ℕ
unfolding sum_remaining
remaining l = sum_remaining l.bufs

front_chunk : List Bytes → Bytes
front_chunk [] = []
front_chunk (buf ∷ rest) = buf

unfoldable pub chunk : BufList → Bytes
unfolding front_chunk
chunk l = front_chunk l.bufs

-- The `while cnt > 0` loop: one round for each buffer that is used up.
advance_loop : List Bytes → ℕ → List Bytes
advance_loop [] cnt = []
advance_loop (front ∷ rest) cnt =
    let rem = length front in
    let next = advance_loop rest (cnt - rem) in
    if cnt == 0 then front ∷ rest else if ltb cnt rem then drop cnt front ∷ rest else next

unfoldable pub advance : BufList → ℕ → BufList
unfolding advance_loop
advance l cnt = record { bufs = advance_loop l.bufs cnt }

-- No buffer is empty: what the debug assertion of `push` asks for.
abbrev pub IsProper : BufList → Type 0
IsProper l = All (λ buf. 0 < length buf) l.bufs
