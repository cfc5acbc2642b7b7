-- ===== src/Client/Body/Abort.antt =====
-- client/connection.rs: a body that is dropped before its request has ended.
use async_fcgi.Base.{suc, ◌≡◌, ◌≢◌, refl, true, false}
use async_fcgi.Base.{[], none, some, Bool-cases, inl, inr}
use async_fcgi.Client.Requests.{Request, Slab, get, distribute}
use async_fcgi.Fastcgi.Record.{Record, Body, EndRequestBody}
use async_fcgi.Client.Requests.Aborted.{distribute_aborted}
use async_fcgi.Client.Requests.Slots.{get-put_self}
use async_fcgi.Client.Body.{FcgiBody, drop_body, abort_slot}

pub drop_body_marks :
    (body : FcgiBody) (slab : Slab) (req : Request)
    → body.done ≡ false
    → get slab body.rid ≡ some req
    → get (drop_body true body slab) body.rid ≡ some (record req { aborted = true; waker = none })
unfolding drop_body abort_slot
drop_body_marks body slab req live e = rw (live, e) (get-put_self slab body.rid _ e)

pub drop_body_unlocked : (body : FcgiBody) (slab : Slab) → drop_body false body slab ≡ slab
unfolding drop_body
drop_body_unlocked body slab = elim (Bool-cases body.done) [
  | inl e ↦ rw (e) refl
  | inr e ↦ rw (e) refl
]

-- After a body that is not done is dropped, with the connection locked, a record for its request
-- that does not end it changes no request and wakes no task.
drop_body-distribute :
    (body : FcgiBody) (slab : Slab) (req : Request) (r : Record)
    → body.done ≡ false
    → get slab body.rid ≡ some req
    → r.header.request_id ≡ suc body.rid
    → ((status : EndRequestBody) → r.body ≢ Body.end_request status)
    → distribute (drop_body true body slab) r ≡ (drop_body true body slab, [])
drop_body-distribute body slab req r live e own running =
    (distribute_aborted (drop_body true body slab) r body.rid
        (record req { aborted = true; waker = none }) own (drop_body_marks body slab req live e)
        refl).0
      running

-- After a body that is not done is dropped, with the connection locked, the record that ends its
-- request frees the slot.
drop_body-distribute_end :
    (body : FcgiBody) (slab : Slab) (req : Request) (r : Record) (status : EndRequestBody)
    → body.done ≡ false
    → get slab body.rid ≡ some req
    → r.header.request_id ≡ suc body.rid
    → r.body ≡ Body.end_request status
    → get (distribute (drop_body true body slab) r).0 body.rid ≡ none
drop_body-distribute_end body slab req r status live e own end =
    (distribute_aborted (drop_body true body slab) r body.rid
        (record req { aborted = true; waker = none }) own (drop_body_marks body slab req live e)
        refl).1
      status end
