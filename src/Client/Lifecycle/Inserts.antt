-- ===== src/Client/Lifecycle/Inserts.antt =====
-- client/connection.rs: the slab before and after a request is inserted.
use async_fcgi.Base.{ℕ, zero, suc, ◌<◌, ◌≡◌, ◌≢◌, ◌⊎◌, ◌∙◌, ap, sym, refl, arith, inl, inr}
use async_fcgi.Base.{[], ◌∷◌, ◌++◌, Option, none, some, length, length-append, Bool-cases, ◌==◌}
use mathlib.Core.Option.{some-injective}
use async_fcgi.Client.Requests.{Request, Slab, get, put}
use async_fcgi.Client.Requests.Slots.{get-put_ne}
use async_fcgi.Client.Forward.{Inserted, reused, pushed}
use async_fcgi.Client.Lifecycle.{occupied}

length-put : (slab : Slab) (k : ℕ) (v : Option Request) → length (put slab k v) ≡ length slab
unfolding put
length-put [] k v = refl
length-put (slot ∷ slab) zero v = refl
length-put (slot ∷ slab) (suc k) v = omega (arith, length-put slab k v)

occupied-put :
    (slab : Slab) (k : ℕ) (req : Request)
    → k < length slab
    → get slab k ≡ none
    → occupied (put slab k (some req)) ≡ suc (occupied slab)
unfolding get put
occupied-put [] k req h e = absurd (omega arith)
occupied-put (none ∷ slab) zero req h e = refl
occupied-put (some r ∷ slab) zero req h e = cc
occupied-put (none ∷ slab) (suc k) req h e = occupied-put slab k req (omega arith) e
occupied-put (some r ∷ slab) (suc k) req h e =
    omega (arith, occupied-put slab k req (omega arith) e)

occupied-push :
    (slab : Slab) (req : Request) → occupied (slab ++ (some req ∷ [])) ≡ suc (occupied slab)
occupied-push [] req = refl
occupied-push (none ∷ slab) req = occupied-push slab req
occupied-push (some r ∷ slab) req = omega (arith, occupied-push slab req)

occupied_full :
    (slab : Slab) → ((k : ℕ) → k < length slab → get slab k ≢ none) → occupied slab ≡ length slab
unfolding get
occupied_full [] full = refl
occupied_full (none ∷ slab) full = absurd (full 0 (omega arith) refl)
occupied_full (some r ∷ slab) full =
    omega (arith, occupied_full slab (λ k h. full (suc k) (omega arith)))

get-put_vacant :
    (slab : Slab) (k : ℕ) (req : Request)
    → k < length slab
    → get (put slab k (some req)) k ≡ some req
unfolding get put
get-put_vacant [] k req h = absurd (omega arith)
get-put_vacant (slot ∷ slab) zero req h = refl
get-put_vacant (slot ∷ slab) (suc k) req h = get-put_vacant slab k req (omega arith)

get_beyond : (slab : Slab) → get slab (length slab) ≡ none
unfolding get
get_beyond [] = refl
get_beyond (slot ∷ slab) = get_beyond slab

get-push : (slab : Slab) (req : Request) → get (slab ++ (some req ∷ [])) (length slab) ≡ some req
unfolding get
get-push [] req = refl
get-push (slot ∷ slab) req = get-push slab req

get-push_other :
    (slab : Slab) (req : Request) (j : ℕ) (r : Request)
    → get slab j ≡ some r
    → get (slab ++ (some req ∷ [])) j ≡ some r
unfolding get
get-push_other [] req j r e = cc
get-push_other (slot ∷ slab) req zero r e = e
get-push_other (slot ∷ slab) req (suc j) r e = get-push_other slab req j r e

get-push_origin :
    (slab : Slab) (req : Request) (j : ℕ) (r : Request)
    → get (slab ++ (some req ∷ [])) j ≡ some r
    → (get slab j ≡ some r) ⊎ (r ≡ req)
unfolding get
get-push_origin [] req zero r e = inr (cc)
get-push_origin [] req (suc j) r e = cc
get-push_origin (slot ∷ slab) req zero r e = inl e
get-push_origin (slot ∷ slab) req (suc j) r e = get-push_origin slab req j r e

pub Inserted-occupied :
    {slab : Slab} {req : Request} {k : ℕ} {slab' : Slab}
    → Inserted slab req k slab'
    → occupied slab' ≡ suc (occupied slab)
Inserted-occupied {slab} {req} (reused k h e) = occupied-put slab k req h e
Inserted-occupied {slab} {req} (pushed full) = occupied-push slab req

-- There are more slots only when all were occupied.
pub Inserted-length :
    {slab : Slab} {req : Request} {k : ℕ} {slab' : Slab}
    → Inserted slab req k slab'
    → (length slab' ≡ length slab) ⊎ (length slab' ≡ suc (occupied slab))
Inserted-length {slab} {req} (reused k h e) = inl (length-put slab k (some req))
Inserted-length {slab} {req} (pushed full) =
    inr (omega (arith, length-append slab (some req ∷ []), occupied_full slab full))

pub Inserted-key :
    {slab : Slab} {req : Request} {k : ℕ} {slab' : Slab}
    → Inserted slab req k slab'
    → (k < length slab') × (get slab k ≡ none) × (get slab' k ≡ some req)
Inserted-key {slab} {req} (reused k h e) =
    (omega (arith, length-put slab k (some req)), e, get-put_vacant slab k req h)
Inserted-key {slab} {req} (pushed full) =
    (omega (arith, length-append slab (some req ∷ [])), get_beyond slab, get-push slab req)

pub Inserted-other :
    {slab : Slab} {req : Request} {k : ℕ} {slab' : Slab}
    → Inserted slab req k slab'
    → (j : ℕ) (r : Request) → get slab j ≡ some r
    → get slab' j ≡ some r
Inserted-other {slab} {req} (reused k h e) j r f = get-put_ne slab k j (some req) (λ same. cc) ∙ f
Inserted-other {slab} {req} (pushed full) j r f = get-push_other slab req j r f

-- A request of the new slab was there before, or is the new one.
pub Inserted-origin :
    {slab : Slab} {req : Request} {k : ℕ} {slab' : Slab}
    → Inserted slab req k slab'
    → (j : ℕ) (r : Request) → get slab' j ≡ some r
    → (get slab j ≡ some r) ⊎ (r ≡ req)
Inserted-origin {slab} {req} (reused k h e) j r f = elim (Bool-cases (k == j)) [
  | inl mine ↦
      let same : k ≡ j = ground arith in
      inr (
        some-injective _ _
          (sym f ∙ ap (get (put slab k (some req))) (sym same) ∙ get-put_vacant slab k req h))
  | inr other ↦ inl (sym (get-put_ne slab k j (some req) (λ p. ground arith)) ∙ f)
]
Inserted-origin {slab} {req} (pushed full) j r f = get-push_origin slab req j r f
