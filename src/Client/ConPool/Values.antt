-- ===== src/Client/ConPool/Values.antt =====
-- client/con_pool.rs: the limits that an answer stands for, by the names of its values.
use async_fcgi.Base.{
  ℕ, ◌≡◌, ◌≢◌, refl, ap, ap₂, ◌∙◌, arith, Bool, true, false, List, [], ◌∷◌, Option, none, some,
}
use async_fcgi.Base.{if◌then◌else◌, ◌&&◌, ◌==◌, Bool-cases, inl, inr}
use async_fcgi.Bytes.{Bytes}
use async_fcgi.Fastcgi.NameValuePair.{NameValuePair}
use async_fcgi.Client.ConPool.{
  Limits, parse_int, on_pair, set_cons, set_reqs, same_bytes, max_conns, max_reqs, mpxs_conns,
}
use async_fcgi.Client.ConPool.Laws.{settle}

-- The pair says that the application does not multiplex.
abbrev pub is_no_mpxs : NameValuePair → Bool
is_no_mpxs kv = same_bytes kv.name_data mpxs_conns && same_bytes kv.value_data (48 ∷ [])

-- Some pair says so.
abbrev pub has_no_mpxs : List NameValuePair → Bool
has_no_mpxs [] = false
has_no_mpxs (kv ∷ kvs) = let rest = has_no_mpxs kvs in if is_no_mpxs kv then true else rest

-- The pairs in front of the first one that says so.
abbrev pub heeded : List NameValuePair → List NameValuePair
heeded [] = []
heeded (kv ∷ kvs) = let rest = heeded kvs in if is_no_mpxs kv then [] else kv ∷ rest

-- The last value under this name that is a number of so many bits, or else the default.
abbrev pub or_else : Option ℕ → ℕ → ℕ
or_else none d = d
or_else (some v) d = v

abbrev pub last_number : Bytes → ℕ → ℕ → List NameValuePair → ℕ
last_number name bits d [] = d
last_number name bits d (kv ∷ kvs) =
    last_number name bits
      (if same_bytes kv.name_data name then or_else (parse_int bits kv.value_data) d else d) kvs

-- The limits of an answer, from those before it.
abbrev pub limits_of : Limits → List NameValuePair → Limits
limits_of l kvs = record {
  max_cons = last_number max_conns 8 l.max_cons (heeded kvs);
  max_req_per_con =
      if has_no_mpxs kvs then 1 else last_number max_reqs 16 l.max_req_per_con (heeded kvs);
}

same_bytes-eq : (xs ys : Bytes) → same_bytes xs ys ≡ true → xs ≡ ys
unfolding same_bytes
same_bytes-eq [] [] e = refl
same_bytes-eq [] (y ∷ ys) e = cc
same_bytes-eq (x ∷ xs) [] e = cc
same_bytes-eq (x ∷ xs) (y ∷ ys) e = elim (Bool-cases (x == y)) [
  | inl same ↦ ap₂ ◌∷◌ (ground arith) (same_bytes-eq xs ys (rw (same) at e))
  | inr other ↦ absurd (false≢true (rw (other) at e))
]
  where
    false≢true : false ≢ true
    false≢true e = cc

-- A name that is one is not another.
apart :
    (name a b : Bytes)
    → same_bytes name a ≡ true
    → same_bytes a b ≡ false
    → same_bytes name b ≡ false
apart name a b e other = ap (λ n. same_bytes n b) (same_bytes-eq name a e) ∙ other

set_cons-or_else :
    (l : Limits) (o : Option ℕ) → set_cons l o ≡ record l { max_cons = or_else o l.max_cons }
unfolding set_cons
set_cons-or_else l none = refl
set_cons-or_else l (some v) = refl

set_reqs-or_else :
    (l : Limits) (o : Option ℕ)
    → set_reqs l o ≡ record l { max_req_per_con = or_else o l.max_req_per_con }
unfolding set_reqs
set_reqs-or_else l none = refl
set_reqs-or_else l (some v) = refl

-- What a pair does that does not end it all.
abbrev heed : Limits → NameValuePair → Limits
heed l kv = record {
  max_cons =
      if same_bytes kv.name_data max_conns
      then or_else (parse_int 8 kv.value_data) l.max_cons
      else l.max_cons;
  max_req_per_con =
      if same_bytes kv.name_data max_reqs
      then or_else (parse_int 16 kv.value_data) l.max_req_per_con
      else l.max_req_per_con;
}

on_pair-heed :
    (l : Limits) (kv : NameValuePair)
    → on_pair l kv
      ≡ (if is_no_mpxs kv then (record l { max_req_per_con = 1 }, true) else (heed l kv, false))
unfolding on_pair
on_pair-heed l kv = elim (Bool-cases (same_bytes kv.name_data max_conns)) [
  | inl conns ↦
      rw
        (
          conns,
          apart kv.name_data max_conns max_reqs conns (unfold same_bytes in refl),
          apart kv.name_data max_conns mpxs_conns conns (unfold same_bytes in refl),
          set_cons-or_else l (parse_int 8 kv.value_data),
        )
        refl
  | inr no_conns ↦ elim (Bool-cases (same_bytes kv.name_data max_reqs)) [
    | inl reqs ↦
        rw
          (
            no_conns,
            reqs,
            apart kv.name_data max_reqs mpxs_conns reqs (unfold same_bytes in refl),
            set_reqs-or_else l (parse_int 16 kv.value_data),
          )
          refl
    | inr no_reqs ↦ rw (no_conns, no_reqs) refl
  ]
]

-- Handled in turn, the pairs give the limits that they stand for.
pub settle-limits_of : (l : Limits) (kvs : List NameValuePair) → settle l kvs ≡ limits_of l kvs
settle-limits_of l [] = refl
settle-limits_of l (kv ∷ kvs) = elim (Bool-cases (is_no_mpxs kv)) [
  | inl no_mpxs ↦ rw (on_pair-heed l kv, no_mpxs) refl
  | inr heeded ↦ rw (on_pair-heed l kv, heeded) (settle-limits_of (heed l kv) kvs)
]
