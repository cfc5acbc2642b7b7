-- ===== src/Client/Lifecycle/Slots.antt =====
-- client/connection.rs: no work of a request makes a vacant slot occupied.
use async_fcgi.Base.{ℕ, zero, suc, ◌+◌, ◌≡◌, refl, arith}
use async_fcgi.Base.{[], ◌∷◌, Option, none, some, length}
use async_fcgi.Client.Requests.{Request, Slab, get, put}
use async_fcgi.Client.Requests.Changes.{Changes, same, wrote, distribute-Changes}
use async_fcgi.Client.Connection.{notify_everyone}
use async_fcgi.Client.Connection.Laws.{
  notify_everyone-nil, notify_everyone-none, notify_everyone-some,
}
use async_fcgi.Client.Body.Changes.{take_frame-Changes, drop_body-Changes}
use async_fcgi.Client.Response.Changes.{give_back-Changes}
use async_fcgi.Client.Lifecycle.{
  Actor, Works, receives, notifies, polls, drops, gives_back, freed, occupied,
}

-- Occupied slots stay so or become vacant, and vacant ones stay so.
pub data Shrinks : Slab → Slab → Type 0 where
  nil : Shrinks [] []
  vacant : {slab slab' : Slab} → Shrinks slab slab' → Shrinks (none ∷ slab) (none ∷ slab')
  loses :
      {slab slab' : Slab} (req : Request)
      → Shrinks slab slab'
      → Shrinks (some req ∷ slab) (none ∷ slab')
  kept :
      {slab slab' : Slab} (req req' : Request)
      → Shrinks slab slab'
      → Shrinks (some req ∷ slab) (some req' ∷ slab')

Shrinks-refl : (slab : Slab) → Shrinks slab slab
Shrinks-refl [] = nil
Shrinks-refl (none ∷ slab) = vacant (Shrinks-refl slab)
Shrinks-refl (some req ∷ slab) = kept req req (Shrinks-refl slab)

put-Shrinks :
    (slab : Slab) (k : ℕ) (v : Option Request) {req : Request}
    → get slab k ≡ some req
    → Shrinks slab (put slab k v)
unfolding get put
put-Shrinks [] k v e = cc
put-Shrinks (none ∷ slab) zero v e = cc
put-Shrinks (some req ∷ slab) zero none e = loses req (Shrinks-refl slab)
put-Shrinks (some req ∷ slab) zero (some req') e = kept req req' (Shrinks-refl slab)
put-Shrinks (none ∷ slab) (suc k) v e = vacant (put-Shrinks slab k v e)
put-Shrinks (some req ∷ slab) (suc k) v e = kept req req (put-Shrinks slab k v e)

pub Shrinks-occupied :
    {slab slab' : Slab} → Shrinks slab slab' → occupied slab' + freed slab slab' ≡ occupied slab
Shrinks-occupied nil = refl
Shrinks-occupied (vacant s) = Shrinks-occupied s
Shrinks-occupied (loses req s) = omega (arith, Shrinks-occupied s)
Shrinks-occupied (kept req req' s) = omega (arith, Shrinks-occupied s)

pub Shrinks-length : {slab slab' : Slab} → Shrinks slab slab' → length slab' ≡ length slab
Shrinks-length nil = refl
Shrinks-length (vacant s) = omega (arith, Shrinks-length s)
Shrinks-length (loses req s) = omega (arith, Shrinks-length s)
Shrinks-length (kept req req' s) = omega (arith, Shrinks-length s)

Changes-Shrinks : {slab : Slab} {k : ℕ} {slab' : Slab} → Changes k slab slab' → Shrinks slab slab'
Changes-Shrinks {slab} same = Shrinks-refl slab
Changes-Shrinks {slab} {k} (wrote req v e b) = put-Shrinks slab k v e

notify_everyone-Shrinks : (slab : Slab) → Shrinks slab (notify_everyone slab).0
notify_everyone-Shrinks [] = rw (notify_everyone-nil) nil
notify_everyone-Shrinks (none ∷ slab) =
    rw (notify_everyone-none slab) (vacant (notify_everyone-Shrinks slab))
notify_everyone-Shrinks (some req ∷ slab) =
    rw (notify_everyone-some req slab) (kept req _ (notify_everyone-Shrinks slab))

pub Works-Shrinks :
    {actor : Actor} {slab slab' : Slab} → Works actor slab slab' → Shrinks slab slab'
Works-Shrinks (receives slab r) = Changes-Shrinks (distribute-Changes slab r).1
Works-Shrinks (notifies slab) = notify_everyone-Shrinks slab
Works-Shrinks (polls slab task body f e) = Changes-Shrinks (take_frame-Changes task body slab f e)
Works-Shrinks (drops slab locked body) = Changes-Shrinks (drop_body-Changes locked body slab)
Works-Shrinks (gives_back slab rid bodydata slab' e) =
    Changes-Shrinks (give_back-Changes slab rid bodydata slab' e)
