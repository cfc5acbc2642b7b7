-- ===== src/Client/Headers/Names.antt =====
-- client/connection.rs: the names of the parameters that are made of headers.
use async_fcgi.Base.{ℕ, ◌+◌, ◌<◌, ◌≡◌, ◌≢◌, ◌⊎◌, refl, ap₂, arith, [], ◌∷◌, map, All, length}
use async_fcgi.Bytes.{Bytes}
use async_fcgi.Client.Headers.{upper, meta_name}

-- No hyphen and no lower-case letter.
abbrev pub IsMetaChar : ℕ → Type 0
IsMetaChar c = (c ≢ 45) × ((c < 97) ⊎ (122 < c))

-- No upper-case letter and no underscore.
abbrev pub IsPlainChar : ℕ → Type 0
IsPlainChar c = (c ≢ 95) × ((c < 65) ⊎ (90 < c))

upper-IsMetaChar : (c : ℕ) → IsMetaChar (upper c)
unfolding upper
upper-IsMetaChar c = ground arith

map-upper-IsMetaChar : (key : Bytes) → All IsMetaChar (map upper key)
map-upper-IsMetaChar [] = tt
map-upper-IsMetaChar (c ∷ cs) = (upper-IsMetaChar c, map-upper-IsMetaChar cs)

length-map-upper : (key : Bytes) → length (map upper key) ≡ length key
length-map-upper [] = refl
length-map-upper (c ∷ cs) = omega (arith, length-map-upper cs)

upper-inj : (c d : ℕ) → IsPlainChar c → IsPlainChar d → upper c ≡ upper d → c ≡ d
unfolding upper
upper-inj c d p q e = ground arith

-- The name of a parameter that is made of a header has no hyphen and no lower-case letter, and
-- five characters more than the name of the header.
pub meta_name-IsMetaChar :
    (key : Bytes) → All IsMetaChar (meta_name key) × (length (meta_name key) ≡ 5 + length key)
unfolding meta_name
meta_name-IsMetaChar key = (
  (
    omega arith,
    (omega arith, (omega arith, (omega arith, (omega arith, map-upper-IsMetaChar key)))),
  ),
  omega (arith, length-map-upper key),
)

-- Two headers whose names have no upper-case letter and no underscore become parameters of the
-- same name only if they are the same header.
pub meta_name-inj :
    (key1 key2 : Bytes)
    → All IsPlainChar key1
    → All IsPlainChar key2
    → meta_name key1 ≡ meta_name key2
    → key1 ≡ key2
unfolding meta_name
meta_name-inj key1 key2 p q e = go key1 key2 p q (cc)
  where
    go :
        (xs ys : Bytes)
        → All IsPlainChar xs
        → All IsPlainChar ys
        → map upper xs ≡ map upper ys
        → xs ≡ ys
    go [] [] p q e = refl
    go [] (y ∷ ys) p q e = cc
    go (x ∷ xs) [] p q e = cc
    go (x ∷ xs) (y ∷ ys) p q e = ap₂ ◌∷◌ (upper-inj x y p.0 q.0 (cc)) (go xs ys p.1 q.1 (cc))
