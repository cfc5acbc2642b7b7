-- ===== src/Fastcgi/NameValuePair.antt =====
-- fastcgi.rs: `NameValuePair`, its length on the wire and its parser.
pub mod Laws
use async_fcgi.Base.{ℕ, ◌+◌, ◌/◌, ◌<◌, bit_and, ltb, ◌==◌, if◌then◌else◌, length}
use async_fcgi.Base.Result.{Res, ok, ◌>>=◌}
use async_fcgi.Bytes.{Bytes, index, slice, advance, get_u32}

pub record NameValuePair : Type 0 where
  pub name_data : Bytes
  pub value_data : Bytes

unfoldable pub new : Bytes → Bytes → NameValuePair
new name_data value_data = record { name_data = name_data; value_data = value_data }

-- The length at `pos`, and the position behind it.
pub param_length : Bytes → ℕ → Res (ℕ × ℕ)
param_length bs pos = do
  length ← index bs pos
  if length / 128 == 1
      then (do
        field ← slice bs (pos + 1) (pos + 4)
        (word, _) ← get_u32 field
        ok (bit_and word 0x7fffffff, pos + 4))
      else ok (length, pos + 1)

-- Takes one pair off the front.
unfoldable pub parse : Bytes → Res (NameValuePair × Bytes)
unfolding param_length
parse bs = do
  (key_length, pos1) ← param_length bs 0
  (value_length, pos2) ← param_length bs pos1
  key ← slice bs pos2 (pos2 + key_length)
  let pos3 = pos2 + key_length
  value ← slice bs pos3 (pos3 + value_length)
  let pos4 = pos3 + value_length
  rest ← advance bs pos4
  ok (record { name_data = key; value_data = value }, rest)

unfoldable pub len : NameValuePair → ℕ
len p =
    let ln = length p.name_data in
    let lv = length p.value_data in
    let lf = ln + lv + 2 in
    let lf1 : ℕ = if ltb 0x7f ln then lf + 3 else lf in if ltb 0x7f lv then lf1 + 3 else lf1
