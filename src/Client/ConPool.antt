-- ===== src/Client/ConPool.antt =====
-- client/con_pool.rs: the limits that `ConPool::new_with_strategy` takes from the answer of the
-- application.
pub mod Laws
pub mod Values
pub mod Opening
use async_fcgi.Base.{
  ℕ, zero, suc, ◌+◌, ◌-◌, ◌*◌, ◌^◌, ◌<◌, ◌≡◌, refl, arith, Bool, true, false, List, [], ◌∷◌, ◌++◌,
  Option, none, some,
}
use async_fcgi.Base.{ltb, leb, ◌==◌, if◌then◌else◌, ◌&&◌, Bool-cases, inl, inr, ltb→lt, All, length}
use mathlib.Core.Option
use async_fcgi.Base.Result.{Res, ok, panic, ◌>>=◌}
use async_fcgi.Bytes.{Bytes}
use async_fcgi.BufVec.{BufList, IsProper}
use async_fcgi.BufVec.Laws.{contents}
use async_fcgi.Fastcgi.NameValuePair.{NameValuePair}
use async_fcgi.Fastcgi.NameValuePair.Laws.{IsShort}
use async_fcgi.Fastcgi.NvBody.{NvBody, drain, next}
use async_fcgi.Fastcgi.NvBody.Laws.{IsValid}
use async_fcgi.Fastcgi.NvBody.Drain.{CopiesBytes, drain-contents, encodings, collect-encodings}
use async_fcgi.Fastcgi.Record.{Record, Body}

-- `MAX_CONNS`, `MAX_REQS`, `MPXS_CONNS`
abbrev pub max_conns : Bytes
max_conns = 77 ∷ 65 ∷ 88 ∷ 95 ∷ 67 ∷ 79 ∷ 78 ∷ 78 ∷ 83 ∷ []

abbrev pub max_reqs : Bytes
max_reqs = 77 ∷ 65 ∷ 88 ∷ 95 ∷ 82 ∷ 69 ∷ 81 ∷ 83 ∷ []

abbrev pub mpxs_conns : Bytes
mpxs_conns = 77 ∷ 80 ∷ 88 ∷ 83 ∷ 95 ∷ 67 ∷ 79 ∷ 78 ∷ 78 ∷ 83 ∷ []

unfoldable pub same_bytes : Bytes → Bytes → Bool
same_bytes [] [] = true
same_bytes [] (y ∷ ys) = false
same_bytes (x ∷ xs) [] = false
same_bytes (x ∷ xs) (y ∷ ys) = x == y && same_bytes xs ys

-- The digits of `str::parse` for an unsigned type of so many bits, behind what was read.
unfoldable pub parse_digits : ℕ → ℕ → Bytes → Option ℕ
parse_digits bits n [] = some n
parse_digits bits n (c ∷ cs) =
    let m = n * 10 + (c - 48) in
    let rest = parse_digits bits m cs in
    if leb 48 c && leb c 57 && ltb m (2 ^ bits) then rest else none

-- A sign in front is taken if it is a plus and digits follow.
unfoldable pub parse_int : ℕ → Bytes → Option ℕ
unfolding parse_digits
parse_int bits [] = none
parse_int bits (c ∷ []) = parse_digits bits 0 (c ∷ [])
parse_int bits (c ∷ d ∷ cs) =
    if c == 43 then parse_digits bits 0 (d ∷ cs) else parse_digits bits 0 (c ∷ d ∷ cs)

-- The two limits, as far as they are known.
pub record Limits : Type 0 where
  pub max_cons : ℕ
  pub max_req_per_con : ℕ

abbrev pub at_first : Limits
at_first = record { max_cons = 1; max_req_per_con = 1 }

set_cons : Limits → Option ℕ → Limits
set_cons l none = l
set_cons l (some v) = record l { max_cons = v }

set_reqs : Limits → Option ℕ → Limits
set_reqs l none = l
set_reqs l (some v) = record l { max_req_per_con = v }

-- What is done with one pair, and whether the loop is left: `MPXS_CONNS` with the value 0 does that.
pub on_pair : Limits → NameValuePair → Limits × Bool
unfolding set_cons set_reqs same_bytes
on_pair l kv =
    if same_bytes kv.name_data max_conns
    then (set_cons l (parse_int 8 kv.value_data), false)
    else if same_bytes kv.name_data max_reqs
    then (set_reqs l (parse_int 16 kv.value_data), false)
    else if same_bytes kv.name_data mpxs_conns && same_bytes kv.value_data (48 ∷ [])
    then (record l { max_req_per_con = 1 }, true)
    else (l, false)

-- The inner loop, over the pairs of one record, as their iterator gives them. `none` means that the
-- fuel ran out.
each_pair : ℕ → Limits → Bytes → Option (Res Limits)
each_pair zero l bytes = none
each_pair (suc fuel) l bytes = elim (next bytes) [
  | panic ↦ some panic
  | ok (none, rest) ↦ some (ok l)
  | ok (some kv, rest) ↦
      let (l1, leave) = on_pair l kv in
      let more = each_pair fuel l1 rest in if leave then some (ok l1) else more
]

-- The iterator takes a byte at least in every round.
on_answer : (BufList → ℕ → Res Bytes) → Limits → Body → Option (Res Limits)
unfolding each_pair
on_answer copy_to_bytes l (Body.get_values_result kvs) = elim (drain copy_to_bytes kvs) [
  | panic ↦ some panic
  | ok bytes ↦ each_pair (length bytes + 1) l bytes
]
on_answer copy_to_bytes l _ = some (ok l)

-- The outer loop, over the records of the answer.
pub negotiate : (BufList → ℕ → Res Bytes) → Limits → List Record → Option (Res Limits)
unfolding on_answer
negotiate copy_to_bytes l [] = some (ok l)
negotiate copy_to_bytes l (rec ∷ recs) = elim (on_answer copy_to_bytes l rec.body) [
  | none ↦ none
  | some panic ↦ some panic
  | some (ok l1) ↦ negotiate copy_to_bytes l1 recs
]
