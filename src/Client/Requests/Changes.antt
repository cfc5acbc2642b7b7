-- ===== src/Client/Requests/Changes.antt =====
-- client/connection.rs: a record changes at most one slot, and only one that is occupied.
use async_fcgi.Base.{
  ℕ, zero, suc, ◌≡◌, refl, arith, ◌≢◌, ◌∙◌, true, false, inl, inr, Bool-cases, ◌==◌,
}
use async_fcgi.Base.{List, [], ◌∷◌, Option, none, some}
use async_fcgi.Base.Result.{if-of}
use async_fcgi.Bytes.{Bytes}
use async_fcgi.BufVec.{push, IsProper}
use async_fcgi.BufVec.Laws.{push-IsProper}
use async_fcgi.Fastcgi.Record.{Record, Body, get_request_id}
use async_fcgi.Client.Requests.Slots.{get-put_self, get-put_ne}
use async_fcgi.Client.Requests.Delivery.{distribute_isolated, distribute-own}
use async_fcgi.Client.Requests.{
  Request, Slab, Waker, get, put, distribute, on_request, on_slot, on_body, on_end_request,
  on_std_out,
}

-- What becomes of a request: it is removed, or changed in a way that leaves no empty buffer if there
-- was none, and that does not take the mark of an abort away.
pub data Becomes (req : Request) : Option Request → Type 0 where
  removed : Becomes req none
  changed :
      (req' : Request)
      → (IsProper req.buf → IsProper req'.buf)
      → (req.aborted ≡ true → req'.aborted ≡ true)
      → Becomes req (some req')

-- At most the slot `k` is changed, and only if it is occupied.
pub data Changes (k : ℕ) (slab : Slab) : Slab → Type 0 where
  same : Changes k slab slab
  wrote :
      (req : Request) (v : Option Request)
      → get slab k ≡ some req
      → Becomes req v
      → Changes k slab (put slab k v)

on_body-Changes :
    (slab : Slab) (k : ℕ) (req : Request) (b : Body)
    → get slab k ≡ some req
    → Changes k slab (on_body slab k req b).0
unfolding on_body on_end_request on_std_out
on_body-Changes slab k req (Body.end_request status) e =
    let done : Request = record req { ended = true; waker = none } in
    if-of (Changes k slab) req.aborted (wrote req none e removed)
      (wrote req (some done) e (changed done (λ p. p) (λ a. a)))
on_body-Changes slab k req (Body.std_out bytes) e =
    if-of {A = Slab × List Waker} (λ x. Changes k slab x.0) req.aborted same (fed bytes)
  where
    fed : (bytes : Bytes) → Changes k slab (on_std_out slab k req bytes).0
    fed [] = same
    fed (b ∷ bs) =
        let req' : Request = record req { buf = push req.buf (b ∷ bs); waker = none } in
        wrote req (some req') e
          (changed req' (λ p. push-IsProper req.buf (b ∷ bs) p (omega arith)) (λ a. a))
on_body-Changes slab k req _ e = same

on_slot-Changes :
    (slab : Slab) (k : ℕ) (slot : Option Request) (b : Body)
    → get slab k ≡ slot
    → Changes k slab (on_slot slab k slot b).0
unfolding on_slot
on_slot-Changes slab k none b e = same
on_slot-Changes slab k (some req) b e = on_body-Changes slab k req b e

pub distribute-Changes : (slab : Slab) (r : Record) → (k : ℕ) × Changes k slab (distribute slab r).0
unfolding distribute on_request
distribute-Changes slab r = by_id (get_request_id r)
  where
    by_id : (id : ℕ) → (k : ℕ) × Changes k slab (on_request slab id r.body).0
    by_id zero = (0, same)
    by_id (suc k) = (k, on_slot-Changes slab k (get slab k) r.body refl)

-- The slot `k` is occupied by a request that is not aborted.
pub record IsRunning (slab : Slab) (k : ℕ) : Type 0 where
  pub request : Request
  pub in_slot : get slab k ≡ some request
  pub not_aborted : request.aborted ≡ false

on_body-IsRunning :
    (slab : Slab) (k : ℕ) (req : Request) (b : Body)
    → get slab k ≡ some req
    → req.aborted ≡ false
    → IsRunning (on_body slab k req b).0 k
unfolding on_body on_end_request on_std_out
on_body-IsRunning slab k req (Body.end_request status) e live =
    let done : Request = record req { ended = true; waker = none } in
    record {
      request = done;
      in_slot = ground (arith, get-put_self slab k (some done) e);
      not_aborted = live;
    }
on_body-IsRunning slab k req (Body.std_out []) e live = record {
  request = req;
  in_slot = ground arith;
  not_aborted = live;
}
on_body-IsRunning slab k req (Body.std_out (b ∷ bs)) e live =
    let fed : Request = record req { buf = push req.buf (b ∷ bs); waker = none } in
    record {
      request = fed;
      in_slot = ground (arith, get-put_self slab k (some fed) e);
      not_aborted = live;
    }
on_body-IsRunning slab k req _ e live = record { request = req; in_slot = e; not_aborted = live }

-- No record frees the slot of a request that is not aborted, nor marks it.
pub distribute-IsRunning :
    (slab : Slab) (r : Record) (k : ℕ) → IsRunning slab k → IsRunning (distribute slab r).0 k
distribute-IsRunning slab r k run = elim (Bool-cases (r.header.request_id == suc k)) [
  | inl mine ↦
      rw (distribute-own slab r k run.request (ground arith) run.in_slot)
        (on_body-IsRunning slab k run.request r.body run.in_slot run.not_aborted)
  | inr other ↦ record {
    request = run.request;
    in_slot = distribute_isolated slab r k (λ p. ground arith) ∙ run.in_slot;
    not_aborted = run.not_aborted;
  }
]

-- A change of another slot.
pub Changes-IsRunning :
    {slab : Slab} {j : ℕ} {slab' : Slab} (k : ℕ)
    → j ≢ k
    → Changes j slab slab'
    → IsRunning slab k
    → IsRunning slab' k
Changes-IsRunning k ne same run = run
Changes-IsRunning {slab} {j} k ne (wrote req v e b) run = record {
  request = run.request;
  in_slot = get-put_ne slab j k v ne ∙ run.in_slot;
  not_aborted = run.not_aborted;
}
