-- ===== src/Client/Response/Changes.antt =====
-- client/connection.rs: what is behind a head goes to the slot of its own request.
use async_fcgi.Base.{ℕ, ◌≡◌, refl, arith, [], ◌∷◌, Option, none, some}
use std.Path.{subst}
use async_fcgi.Base.Result.{ok, ok-inj}
use async_fcgi.Bytes.{Bytes}
use async_fcgi.BufVec.{push}
use async_fcgi.BufVec.Laws.{push-IsProper}
use async_fcgi.Client.Requests.{Request, Slab, get}
use async_fcgi.Client.Requests.Changes.{changed, Changes, same, wrote}
use async_fcgi.Client.Response.{give_back, push_behind}

pub give_back-Changes :
    (slab : Slab) (rid : ℕ) (bodydata : Bytes) (slab' : Slab)
    → give_back slab rid bodydata ≡ ok slab'
    → Changes rid slab slab'
unfolding give_back
give_back-Changes slab rid [] slab' h = subst (Changes rid slab) (ok-inj h) same
give_back-Changes slab rid (b ∷ bs) slab' h = by_slot (get slab rid) refl h
  where
    by_slot :
        (slot : Option Request)
        → get slab rid ≡ slot
        → push_behind slab rid (b ∷ bs) slot ≡ ok slab'
        → Changes rid slab slab'
    by_slot none e h = unfold push_behind in cc
    by_slot (some req) e h =
        let given : Request = record req { buf = push req.buf (b ∷ bs) } in
        subst (Changes rid slab) (ok-inj (unfold push_behind in h)) (
          wrote req (some given) e
            (changed given (λ p. push-IsProper req.buf (b ∷ bs) p (omega arith)) (λ a. a)))
