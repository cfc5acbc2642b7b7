-- ===== src/Client/Requests/Aborted.antt =====
-- client/connection.rs: records for a request that was aborted.
use async_fcgi.Base.{ℕ, suc, ◌≡◌, ◌≢◌, refl, true, [], none, some}
use async_fcgi.Fastcgi.Record.{Record, Body, EndRequestBody, get_request_id}
use async_fcgi.Client.Requests.{
  Request, Slab, get, distribute, on_request, on_slot, on_body, on_end_request,
}
use async_fcgi.Client.Requests.Slots.{get-put_self}

on_body_aborted :
    (slab : Slab) (k : ℕ) (req : Request) (b : Body)
    → get slab k ≡ some req
    → req.aborted ≡ true
    → (((status : EndRequestBody) → b ≢ Body.end_request status)
        → on_body slab k req b ≡ (slab, []))
      × ((status : EndRequestBody)
          → b ≡ Body.end_request status
          → get (on_body slab k req b).0 k ≡ none)
unfolding on_body on_end_request
on_body_aborted slab k req (Body.end_request status) s a =
    (λ ne. absurd (ne status refl), λ st e. rw (a) (get-put_self slab k none s))
on_body_aborted slab k req (Body.std_out bytes) s a = (λ ne. rw (a) refl, λ st e. cc)
on_body_aborted slab k req _ s a = (λ ne. refl, λ st e. cc)

-- A record for an aborted request changes nothing and wakes nobody, unless it ends the request: then
-- its slot is free.
pub distribute_aborted :
    (slab : Slab) (r : Record) (k : ℕ) (req : Request)
    → r.header.request_id ≡ suc k
    → get slab k ≡ some req
    → req.aborted ≡ true
    → (((status : EndRequestBody) → r.body ≢ Body.end_request status)
        → distribute slab r ≡ (slab, []))
      × ((status : EndRequestBody)
          → r.body ≡ Body.end_request status
          → get (distribute slab r).0 k ≡ none)
unfolding distribute get_request_id on_request on_slot
distribute_aborted slab r k req e s a = rw (e, s) (on_body_aborted slab k req r.body s a)
