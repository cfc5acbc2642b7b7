-- ===== src/Client/Requests/Slots.antt =====
-- client/connection.rs: slots of the slab, read after a write.
use async_fcgi.Base.{ℕ, zero, suc, ◌≡◌, ◌≢◌, refl, ap, [], ◌∷◌, Option, some}
use async_fcgi.Client.Requests.{Request, Slab, get, put}

pub get-put_self :
    (slab : Slab) (k : ℕ) (v : Option Request) {req : Request}
    → get slab k ≡ some req
    → get (put slab k v) k ≡ v
unfolding get put
get-put_self [] k v h = cc
get-put_self (slot ∷ slots) zero v h = refl
get-put_self (slot ∷ slots) (suc k) v h = get-put_self slots k v h

pub get-put_ne :
    (slab : Slab) (j k : ℕ) (v : Option Request) → j ≢ k → get (put slab j v) k ≡ get slab k
unfolding get put
get-put_ne [] j k v ne = refl
get-put_ne (slot ∷ slots) zero zero v ne = absurd (ne refl)
get-put_ne (slot ∷ slots) zero (suc k) v ne = refl
get-put_ne (slot ∷ slots) (suc j) zero v ne = refl
get-put_ne (slot ∷ slots) (suc j) (suc k) v ne = get-put_ne slots j k v (λ e. ne (ap suc e))
