-- ===== src/Bytes/Defs.antt =====
-- Reads take from the front and return the rest; writes go to the end. Numbers are big-endian.
use async_fcgi.Base.{ℕ, ◌+◌, ◌-◌, ◌*◌, ◌/◌, ◌%◌, ◌^◌, ◌<◌, ◌&&◌, List, [], ◌∷◌, ◌++◌}
use async_fcgi.Base.{length, take, drop, leb, if◌then◌else◌, get_elem?, none, some}
use async_fcgi.Base.Result.{Res, ok, panic}

abbrev pub Bytes : Type 0
Bytes = List ℕ

abbrev pub IsU8 : ℕ → Type 0
IsU8 n = n < 2 ^ 8

abbrev pub IsU16 : ℕ → Type 0
IsU16 n = n < 2 ^ 16

abbrev pub IsU32 : ℕ → Type 0
IsU32 n = n < 2 ^ 32

abbrev pub as_u8 : ℕ → ℕ
as_u8 n = n % 2 ^ 8

abbrev pub as_u16 : ℕ → ℕ
as_u16 n = n % 2 ^ 16

abbrev pub as_u32 : ℕ → ℕ
as_u32 n = n % 2 ^ 32

abbrev pub get_u8 : Bytes → Res (ℕ × Bytes)
get_u8 [] = panic
get_u8 (a ∷ r) = ok (a, r)

abbrev pub get_u16 : Bytes → Res (ℕ × Bytes)
get_u16 [] = panic
get_u16 (a ∷ []) = panic
get_u16 (a ∷ b ∷ r) = ok (a * 256 + b, r)

abbrev pub get_u32 : Bytes → Res (ℕ × Bytes)
get_u32 [] = panic
get_u32 (a ∷ []) = panic
get_u32 (a ∷ b ∷ []) = panic
get_u32 (a ∷ b ∷ c ∷ []) = panic
get_u32 (a ∷ b ∷ c ∷ d ∷ r) = ok (((a * 256 + b) * 256 + c) * 256 + d, r)

-- `data[i]`
unfoldable pub index : Bytes → ℕ → Res ℕ
index xs i = elim (get_elem? xs i) [ none ↦ panic | some b ↦ ok b ]

-- `data.slice(a..b)`
unfoldable pub slice : Bytes → ℕ → ℕ → Res Bytes
slice xs a b = if leb a b && leb b (length xs) then ok (take (b - a) (drop a xs)) else panic

unfoldable pub advance : Bytes → ℕ → Res Bytes
advance xs n = if leb n (length xs) then ok (drop n xs) else panic

abbrev pub put_u8 : Bytes → ℕ → Bytes
put_u8 buf v = buf ++ (v ∷ [])

abbrev be_u16 : ℕ → Bytes
be_u16 v = (v / 256 % 256) ∷ (v % 256) ∷ []

abbrev pub be_u32 : ℕ → Bytes
be_u32 v = (v / 16777216 % 256) ∷ (v / 65536 % 256) ∷ (v / 256 % 256) ∷ (v % 256) ∷ []

abbrev pub put_u16 : Bytes → ℕ → Bytes
put_u16 buf v = buf ++ be_u16 v

abbrev pub put_u32 : Bytes → ℕ → Bytes
put_u32 buf v = buf ++ be_u32 v
