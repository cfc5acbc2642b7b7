-- ===== src/Client/Body/Changes.antt =====
-- client/connection.rs: the owner of a body changes at most the slot of its own request.
use async_fcgi.Base.{◌<◌, ◌≡◌, refl, true, false, inl, inr}
use async_fcgi.Base.{
  Bool, Bool-cases, List, [], ◌∷◌, Option, none, some, leb, length, All, if◌then◌else◌,
}
use std.Path.{subst}
use async_fcgi.Base.Result.{ok, ok-inj, if-ok, if-of}
use async_fcgi.Bytes.{Bytes}
use async_fcgi.BufVec.{IsProper}
use async_fcgi.BufVec
use async_fcgi.Client.Requests.{Request, Slab, Waker, get}
use async_fcgi.Client.Requests.Changes.{removed, changed, Changes, same, wrote}
use async_fcgi.Client.Body.{
  FcgiBody, Framed, take_frame, frame_of, hand_out, no_data, drop_body, abort_slot,
}

no_data-Changes :
    (task : Waker) (body : FcgiBody) (slab : Slab) (req : Request)
    → get slab body.rid ≡ some req
    → Changes body.rid slab (no_data task body slab req).running_requests
unfolding no_data
no_data-Changes task body slab req e =
    let waits : Request = record req { waker = some task } in
    if-of {A = Framed} (λ f. Changes body.rid slab f.running_requests) req.ended
      (if-of {A = Framed} (λ f. Changes body.rid slab f.running_requests) body.was_returned
        (wrote req none e removed) same)
      (wrote req (some waits) e (changed waits (λ p. p) (λ a. a)))

hand_out-Changes :
    (body : FcgiBody) (slab : Slab) (req : Request) (f : Framed)
    → get slab body.rid ≡ some req
    → hand_out body slab req (BufVec.oldest req.buf) ≡ ok f
    → Changes body.rid slab f.running_requests
unfolding hand_out BufVec.oldest
hand_out-Changes body slab req f e h = by_bufs req.buf.bufs (λ p. p) h
  where
    by_bufs :
        (bufs : List Bytes)
        → (IsProper req.buf → All (λ buf. 0 < length buf) bufs)
        → hand_out body slab req (BufVec.oldest (record { bufs = bufs })) ≡ ok f
        → Changes body.rid slab f.running_requests
    by_bufs [] p h = cc
    by_bufs (chunk ∷ bufs) p h =
        let rest : Request = record req { buf = record { bufs = bufs } } in
        if-ok (λ g. Changes body.rid slab g.running_requests) _ h (wrote req none e removed)
          (wrote req (some rest) e (changed rest (λ q. (p q).1) (λ a. a)))

pub take_frame-Changes :
    (task : Waker) (body : FcgiBody) (slab : Slab) (f : Framed)
    → take_frame task body slab ≡ ok f
    → Changes body.rid slab f.running_requests
unfolding take_frame frame_of
take_frame-Changes task body slab f h = by_slot (get slab body.rid) refl h
  where
    by_slot :
        (slot : Option Request)
        → get slab body.rid ≡ slot
        → frame_of task body slab slot ≡ ok f
        → Changes body.rid slab f.running_requests
    by_slot none e h = subst (λ g. Changes body.rid slab g.running_requests) (ok-inj h) same
    by_slot (some req) e h = elim (Bool-cases (leb 1 (BufVec.remaining req.buf))) [
      | inl some_byte ↦ hand_out-Changes body slab req f e (rw (some_byte) at h)
      | inr no_byte ↦
          subst (λ g. Changes body.rid slab g.running_requests) (ok-inj (rw (no_byte) at h))
            (no_data-Changes task body slab req e)
    ]

pub drop_body-Changes :
    (locked : Bool) (body : FcgiBody) (slab : Slab)
    → Changes body.rid slab (drop_body locked body slab)
unfolding drop_body
drop_body-Changes locked body slab = elim (Bool-cases body.done) [
  | inl done ↦ rw (done) same
  | inr live ↦ rw (live) (by_lock locked)
]
  where
    mark :
        (slot : Option Request)
        → get slab body.rid ≡ slot
        → Changes body.rid slab (abort_slot slab body.rid slot)
    mark none e = unfold abort_slot in same
    mark (some req) e =
        unfold abort_slot in
        (wrote req (some (record req { aborted = true; waker = none })) e
          (changed (record req { aborted = true; waker = none }) (λ p. p) (λ a. refl)))

    by_lock :
        (l : Bool)
        → Changes body.rid slab (if l then abort_slot slab body.rid (get slab body.rid) else slab)
    by_lock true = mark (get slab body.rid) refl
    by_lock false = same
