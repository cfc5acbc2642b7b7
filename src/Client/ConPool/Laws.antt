-- ===== src/Client/ConPool/Laws.antt =====
-- client/con_pool.rs: the limits fit their types, and are what the pairs of the answer say.
use async_fcgi.Base.{
  ℕ, zero, suc, ◌+◌, ◌-◌, ◌*◌, ◌^◌, ◌<◌, ◌≡◌, ◌≢◌, ◌≤◌, refl, arith, Bool, true, false, List, [],
  ◌∷◌, ◌++◌, Option, none, some,
}
use async_fcgi.Base.{ltb, leb, ◌==◌, if◌then◌else◌, ◌&&◌, Bool-cases, inl, inr, All, length}
use async_fcgi.Base.Result.{Res, ok}
use async_fcgi.Bytes.{Bytes}
use async_fcgi.BufVec.{BufList, IsProper}
use async_fcgi.BufVec.Laws.{contents}
use async_fcgi.Fastcgi.NameValuePair.{NameValuePair}
use async_fcgi.Fastcgi.NameValuePair.Laws.{IsShort}
use async_fcgi.Fastcgi.NvBody.{NvBody, next}
use async_fcgi.Fastcgi.NvBody.Laws.{IsValid}
use async_fcgi.Fastcgi.NvBody.Drain.{
  CopiesBytes, drain-contents, encodings, encoding-pos, next-encoding,
}
use async_fcgi.Fastcgi.Record.{Record, Body}
use async_fcgi.Base.{length-append}
use async_fcgi.Fastcgi.NameValuePair.Laws.{encoding}
use async_fcgi.Client.ConPool.{
  Limits, parse_int, parse_digits, on_pair, each_pair, set_cons, set_reqs, same_bytes, mpxs_conns,
  negotiate, on_answer,
}

-- The limits fit their types.
pub record IsLimits (l : Limits) : Type 0 where
  pub cons_u8 : l.max_cons < 2 ^ 8
  pub reqs_u16 : l.max_req_per_con < 2 ^ 16

parse_digits-lt :
    (bits n v : ℕ) (cs : Bytes) → n < 2 ^ bits → parse_digits bits n cs ≡ some v → v < 2 ^ bits
unfolding parse_digits
parse_digits-lt bits n v [] h e = ground arith
parse_digits-lt bits n v (c ∷ cs) h e =
    elim (Bool-cases (leb 48 c && leb c 57 && ltb (n * 10 + (c - 48)) (2 ^ bits))) [
      | inl digit ↦ parse_digits-lt bits (n * 10 + (c - 48)) v cs (ground arith) (rw (digit) at e)
      | inr other ↦ absurd (none-ne-some v (rw (other) at e))
    ]
  where
    none-ne-some : (v : ℕ) → none ≢ some v
    none-ne-some v e = cc

-- `parse_int` never gives more than its type holds.
parse_int-lt : (bits v : ℕ) (cs : Bytes) → 0 < 2 ^ bits → parse_int bits cs ≡ some v → v < 2 ^ bits
unfolding parse_int
parse_int-lt bits v [] h e = cc
parse_int-lt bits v (c ∷ []) h e = parse_digits-lt bits 0 v (c ∷ []) h e
parse_int-lt bits v (c ∷ d ∷ cs) h e = elim (Bool-cases (c == 43)) [
  | inl plus ↦ parse_digits-lt bits 0 v (d ∷ cs) h (rw (plus) at e)
  | inr no_sign ↦ parse_digits-lt bits 0 v (c ∷ d ∷ cs) h (rw (no_sign) at e)
]

set_cons-IsLimits :
    (l : Limits) (o : Option ℕ)
    → ((v : ℕ) → o ≡ some v → v < 2 ^ 8)
    → IsLimits l
    → IsLimits (set_cons l o)
unfolding set_cons
set_cons-IsLimits l none b h = h
set_cons-IsLimits l (some v) b h = record { cons_u8 = b v refl; reqs_u16 = h.reqs_u16 }

set_reqs-IsLimits :
    (l : Limits) (o : Option ℕ)
    → ((v : ℕ) → o ≡ some v → v < 2 ^ 16)
    → IsLimits l
    → IsLimits (set_reqs l o)
unfolding set_reqs
set_reqs-IsLimits l none b h = h
set_reqs-IsLimits l (some v) b h = record { cons_u8 = h.cons_u8; reqs_u16 = b v refl }

on_pair-IsLimits : (l : Limits) (kv : NameValuePair) → IsLimits l → IsLimits (on_pair l kv).0
unfolding on_pair
on_pair-IsLimits l kv h =
    let cons = set_cons-IsLimits l _ (λ v. parse_int-lt 8 v kv.value_data (omega arith)) h in
    let reqs = set_reqs-IsLimits l _ (λ v. parse_int-lt 16 v kv.value_data (omega arith)) h in
    ground (arith, cons, reqs)

-- The pairs in turn, until one leaves the loop.
abbrev pub settle : Limits → List NameValuePair → Limits
settle l [] = l
settle l (kv ∷ kvs) =
    let (l1, leave) = on_pair l kv in let rest = settle l1 kvs in if leave then l1 else rest

on_pair-leaves :
    (l : Limits) (kv : NameValuePair)
    → (on_pair l kv).1 ≡ true
    → (on_pair l kv).0.max_req_per_con ≡ 1
unfolding on_pair
on_pair-leaves l kv h = ground arith

-- The pair by which an application says that it does not multiplex.
abbrev pub no_mpxs : NameValuePair
no_mpxs = record { name_data = mpxs_conns; value_data = 48 ∷ [] }

settle-mpxs_conns :
    (l : Limits) (before after : List NameValuePair)
    → (settle l (before ++ (no_mpxs ∷ after))).max_req_per_con ≡ 1
settle-mpxs_conns l [] after = unfold on_pair same_bytes in refl
settle-mpxs_conns l (kv ∷ before) after = elim (Bool-cases (on_pair l kv).1) [
  | inl leaves ↦ rw (leaves) (on_pair-leaves l kv leaves)
  | inr stays ↦ rw (stays) (settle-mpxs_conns (on_pair l kv).0 before after)
]

settle-IsLimits : (l : Limits) (kvs : List NameValuePair) → IsLimits l → IsLimits (settle l kvs)
settle-IsLimits l [] h = h
settle-IsLimits l (kv ∷ kvs) h = elim (Bool-cases (on_pair l kv).1) [
  | inl leaves ↦ rw (leaves) (on_pair-IsLimits l kv h)
  | inr stays ↦ rw (stays) (settle-IsLimits (on_pair l kv).0 kvs (on_pair-IsLimits l kv h))
]

length-encodings : (ps : List NameValuePair) → length ps ≤ length (encodings ps)
length-encodings [] = omega arith
length-encodings (p ∷ ps) = omega (
  arith,
  length-encodings ps,
  length-append (encoding p) (encodings ps),
  encoding-pos p [],
  length-append (encoding p) [],
)

each_pair-encodings :
    (fuel : ℕ) (l : Limits) (ps : List NameValuePair)
    → All IsShort ps
    → length ps < fuel
    → each_pair fuel l (encodings ps) ≡ some (ok (settle l ps))
unfolding each_pair
each_pair-encodings zero l ps h k = absurd (omega arith)
each_pair-encodings (suc fuel) l [] h k = unfold next in refl
each_pair-encodings (suc fuel) l (p ∷ ps) h k =
    rw
      (
        next-encoding p (encodings ps) h.0,
        each_pair,
        each_pair-encodings fuel (on_pair l p).0 ps h.1 (omega arith),
      )
      (same (on_pair l p).1)
  where
    same :
        (leave : Bool)
        → (if leave then some (ok (on_pair l p).0) else some (ok (settle (on_pair l p).0 ps)))
          ≡ some (ok (if leave then (on_pair l p).0 else settle (on_pair l p).0 ps))
    same true = refl
    same false = refl

on_answer-encodings :
    (copy : BufList → ℕ → Res Bytes)
    → CopiesBytes copy
    → (l : Limits) (kvs : NvBody) (ps : List NameValuePair) → IsValid kvs
    → IsProper kvs.pairs
    → contents kvs.pairs ≡ encodings ps
    → All IsShort ps
    → on_answer copy l (Body.get_values_result kvs) ≡ some (ok (settle l ps))
unfolding on_answer
on_answer-encodings copy copies l kvs ps v p held short =
    rw (on_answer, drain-contents copy copies kvs v p, held)
      (each_pair-encodings (length (encodings ps) + 1) l ps short
        (omega (arith, length-encodings ps)))

-- Let `copy_to_bytes` take the front of a list without empty buffers, and the limits fit their
-- types. An answer of one record of `GetValuesResult`, whose body is valid, has no empty buffer
-- and holds the encodings of pairs with names and values of less than 128 bytes, settles the
-- limits as these pairs do in turn, until one leaves the loop, and the new limits fit their
-- types.
pub negotiate-settle :
    (copy : BufList → ℕ → Res Bytes)
    → CopiesBytes copy
    → (l : Limits) (rec : Record) (kvs : NvBody) (ps : List NameValuePair)
    → rec.body ≡ Body.get_values_result kvs
    → IsValid kvs
    → IsProper kvs.pairs
    → contents kvs.pairs ≡ encodings ps
    → All IsShort ps
    → IsLimits l
    → (negotiate copy l (rec ∷ []) ≡ some (ok (settle l ps))) × IsLimits (settle l ps)
unfolding negotiate
negotiate-settle copy copies l rec kvs ps e v p held short bounded = (
  rw (e, negotiate, on_answer-encodings copy copies l kvs ps v p held short) refl,
  settle-IsLimits l ps bounded,
)

-- Let `copy_to_bytes` take the front of a list without empty buffers. If an answer of one record
-- of `GetValuesResult`, whose body is valid, has no empty buffer and holds the encodings of pairs
-- with names and values of less than 128 bytes, includes `MPXS_CONNS` with the value 0, the
-- connection gets one request at a time, whatever stands in front of that pair and behind it.
negotiate-mpxs_conns :
    (copy : BufList → ℕ → Res Bytes)
    → CopiesBytes copy
    → (l : Limits) (rec : Record) (kvs : NvBody) (before after : List NameValuePair)
    → rec.body ≡ Body.get_values_result kvs
    → IsValid kvs
    → IsProper kvs.pairs
    → contents kvs.pairs ≡ encodings (before ++ (no_mpxs ∷ after))
    → All IsShort (before ++ (no_mpxs ∷ after))
    → (l' : Limits) × (negotiate copy l (rec ∷ []) ≡ some (ok l')) × (l'.max_req_per_con ≡ 1)
unfolding negotiate
negotiate-mpxs_conns copy copies l rec kvs before after e v p held short = (
  settle l (before ++ (no_mpxs ∷ after)),
  rw
      (
        e,
        negotiate,
        on_answer-encodings copy copies l kvs (before ++ (no_mpxs ∷ after)) v p held short,
      )
      refl,
  settle-mpxs_conns l before after,
)
