-- ===== src/Client/Lifecycle/Kept.antt =====
-- client/connection.rs: a request keeps its slot, whatever became of its records.
use async_fcgi.Base.{ℕ, ◌≡◌, Option, some, List}
use async_fcgi.Base.Result.{ok}
use async_fcgi.Bytes.{Bytes}
use async_fcgi.Codec.Io.{Io, Outcome}
use async_fcgi.Client.Requests.{Slab, Waker}
use async_fcgi.Client.Requests.Changes.{IsRunning}
use async_fcgi.Client.Connection.{InnerConnection, FillBuf}
use async_fcgi.Client.Headers.{HeaderMap}
use async_fcgi.Client.Params.{HttpRequest, Strategies}
use async_fcgi.Client.Forward.{SlabCrate, rid_of, forward, sent}
use async_fcgi.Client.Forward.Slot.{forward-HasSlot}
use async_fcgi.Client.Lifecycle.Orphans.{Others, Others-IsRunning, Inserted-IsRunning}

module _ (blank : Bytes) (H : HeaderMap) (s : Strategies) (slab_crate : SlabCrate)
    (dyn_headers : List (Bytes × Bytes)) (req : HttpRequest H) where
  -- If `forward` comes so far as to send its request, whatever becomes of the writing, also if
  -- the socket fails at the first byte, the request has a slot under its id, and keeps it
  -- whatever records arrive and whatever other requests do, as long as no body with that number
  -- is polled or dropped.
  pub forward-Others :
      (fill : FillBuf) (new : Option Io) (c c' : InnerConnection) (io io' : Io) (rid : ℕ)
      (o : Outcome (Unit {0})) (woken : List Waker)
      → forward blank H s slab_crate dyn_headers req fill new c io
        ≡ some (ok (sent rid o c' io' woken))
      → (k : ℕ) × (rid ≡ rid_of k)
        × ((slab' : Slab) → Others k c'.running_requests slab' → IsRunning slab' k)
  forward-Others fill new c c' io io' rid o woken e =
      let h =
        forward-HasSlot blank H s slab_crate dyn_headers req rid o c' io' woken fill new c io e in
      (h.key, h.same_rid, λ slab' others. Others-IsRunning others (Inserted-IsRunning h.inserted))
