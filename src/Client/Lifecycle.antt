-- ===== src/Client/Lifecycle.antt =====
-- client/connection.rs: what can happen to the requests of a connection, in any order.
pub mod Slots
pub mod Inserts
pub mod Capacity
pub mod Proper
pub mod Orphans
pub mod Dropped
pub mod Kept
use async_fcgi.Base.{ℕ, zero, suc, ◌+◌, ◌<◌, ◌≡◌, Bool, ltb, List, [], ◌∷◌, Option, none, some}
use async_fcgi.Base.Result.{Res, ok}
use async_fcgi.Bytes.{Bytes}
use async_fcgi.Fastcgi.Record.{Record}
use async_fcgi.Client.Requests.{Request, Slab, Waker, distribute}
use async_fcgi.Client.Connection.{notify_everyone}
use async_fcgi.Client.Body.{FcgiBody, Framed, take_frame, drop_body}
use async_fcgi.Client.Response.{give_back}
use async_fcgi.Client.Forward.{Inserted, new_request}

-- Who changes the slab: the connection, for any request, or the owner of the body with this key.
pub data Actor : Type 0 where
  connection : Actor
  owner : ℕ → Actor

-- A change of the slab by the requests that are in it.
pub data Works : Actor → Slab → Slab → Type 0 where
  receives : (slab : Slab) (r : Record) → Works connection slab (distribute slab r).0
  notifies : (slab : Slab) → Works connection slab (notify_everyone slab).0
  polls :
      (slab : Slab) (task : Waker) (body : FcgiBody) (f : Framed)
      → take_frame task body slab ≡ ok f
      → Works (owner body.rid) slab f.running_requests
  drops :
      (slab : Slab) (locked : Bool) (body : FcgiBody)
      → Works (owner body.rid) slab (drop_body locked body slab)
  gives_back :
      (slab : Slab) (rid : ℕ) (bodydata : Bytes) (slab' : Slab)
      → give_back slab rid bodydata ≡ ok slab'
      → Works (owner rid) slab slab'

-- The slots that were occupied in the first slab and are vacant in the second.
abbrev pub freed : Slab → Slab → ℕ
freed (some req ∷ slots) (none ∷ slots') = suc (freed slots slots')
freed (_ ∷ slots) (_ ∷ slots') = freed slots slots'
freed _ _ = 0

abbrev pub occupied : Slab → ℕ
occupied [] = 0
occupied (none ∷ slots) = occupied slots
occupied (some req ∷ slots) = suc (occupied slots)

-- A connection as its semaphore sees it: the permits that can be had, those that calls of `forward`
-- hold which have no slot yet, and the requests, each with a permit that is given back when its slot
-- becomes free.
pub record State : Type 0 where
  pub permits : ℕ
  pub held : ℕ
  pub slab : Slab

-- `Connection::connect_with_strategy`
abbrev pub connected : ℕ → State
connected max_req_per_con = record { permits = max_req_per_con; held = 0; slab = [] }

-- `Connection::is_ready`
pub is_ready : State → Bool
is_ready s = ltb 0 s.permits

pub data Step : State → State → Type 0 where
  acquires :
      (permits held : ℕ) (slab : Slab)
      → Step
          (record { permits = suc permits; held = held; slab = slab })
          (record { permits = permits; held = suc held; slab = slab })
  gives_up :
      (permits held : ℕ) (slab : Slab)
      → Step
          (record { permits = permits; held = suc held; slab = slab })
          (record { permits = suc permits; held = held; slab = slab })
  inserts :
      (permits held : ℕ) (slab slab' : Slab) (key : ℕ)
      → Inserted slab new_request key slab'
      → Step
          (record { permits = permits; held = suc held; slab = slab })
          (record { permits = permits; held = held; slab = slab' })
  works :
      (permits held : ℕ) (slab slab' : Slab) (actor : Actor)
      → Works actor slab slab'
      → Step
          (record { permits = permits; held = held; slab = slab })
          (record { permits = permits + freed slab slab'; held = held; slab = slab' })

pub data Reach (s : State) : State → Type 0 where
  here : Reach s s
  next : {t u : State} → Reach s t → Step t u → Reach s u
