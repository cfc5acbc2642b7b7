-- ===== src/Client/Forward/Slot.antt =====
-- client/connection.rs: the slot of a request that `forward` has sent, well or not.
use async_fcgi.Base.{ℕ, ◌≡◌, ap, Option, none, some, List}
use async_fcgi.Base.Result.{Res, ok, panic}
use std.Path.{subst}
use async_fcgi.Bytes.{Bytes}
use async_fcgi.Codec.Io.{Io, Outcome}
use async_fcgi.Client.Requests.{Slab, Waker}
use async_fcgi.Client.Connection.{InnerConnection, FillBuf, Polled, poll_resp}
use async_fcgi.Client.Headers.{HeaderMap}
use async_fcgi.Client.Params.{HttpRequest, Strategies}
use async_fcgi.Client.Forward.{
  new_request, Inserted, SlabCrate, rid_of, Opened, opened, not_opened, open_connection, sent,
  start_request, on_opened, on_polled, forward,
}

-- The request with this id has just been inserted.
pub record HasSlot (rid : ℕ) (slab : Slab) : Type 0 where
  pub key : ℕ
  pub before : Slab
  pub same_rid : rid ≡ rid_of key
  pub inserted : Inserted before new_request key slab

module _ (blank : Bytes) (H : HeaderMap) (s : Strategies) (slab_crate : SlabCrate)
    (dyn_headers : List (Bytes × Bytes)) (req : HttpRequest H) (rid : ℕ) (o : Outcome (Unit {0}))
    (c' : InnerConnection) (io' : Io) (woken' : List Waker) where
  start_request-HasSlot :
      (c : InnerConnection) (io : Io) (woken : List Waker)
      → start_request blank H s slab_crate dyn_headers req c io woken ≡ sent rid o c' io' woken'
      → HasSlot rid c'.running_requests
  unfolding start_request
  start_request-HasSlot c io woken e =
      let same : record c { running_requests = slab } ≡ c' = cc in
      record {
        key = key;
        before = c.running_requests;
        same_rid = cc;
        inserted =
            subst (λ slots. Inserted c.running_requests new_request key slots)
              (ap (λ x. x.running_requests) same)
              (slab_crate.insert-Inserted c.running_requests new_request);
      }
    where
      key : ℕ
      key = (slab_crate.insert c.running_requests new_request).0

      slab : Slab
      slab = (slab_crate.insert c.running_requests new_request).1

  on_opened-HasSlot :
      (op : Opened)
      → on_opened blank H s slab_crate dyn_headers req op ≡ sent rid o c' io' woken'
      → HasSlot rid c'.running_requests
  unfolding on_opened
  on_opened-HasSlot (not_opened e c io woken) same = absurd (cc)
  on_opened-HasSlot (opened c io woken) same = start_request-HasSlot c io woken same

  on_polled-HasSlot :
      (new : Option Io) (io : Io) (polled : Option (Res Polled))
      → on_polled blank H s slab_crate dyn_headers req new io polled
        ≡ some (ok (sent rid o c' io' woken'))
      → HasSlot rid c'.running_requests
  unfolding on_polled
  on_polled-HasSlot new io none e = absurd (cc)
  on_polled-HasSlot new io (some panic) e = absurd (cc)
  on_polled-HasSlot new io (some (ok p)) e = on_opened-HasSlot (open_connection new p io) cc

  -- However the records were written, the request has just been inserted under its id.
  pub forward-HasSlot :
      (fill : FillBuf) (new : Option Io) (c : InnerConnection) (io : Io)
      → forward blank H s slab_crate dyn_headers req fill new c io
        ≡ some (ok (sent rid o c' io' woken'))
      → HasSlot rid c'.running_requests
  unfolding forward
  forward-HasSlot fill new c io e = on_polled-HasSlot new io (poll_resp fill c) e
