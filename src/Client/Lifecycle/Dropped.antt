-- ===== src/Client/Lifecycle/Dropped.antt =====
-- client/connection.rs: a request whose body was dropped, until the application ends it.
use async_fcgi.Base.{ℕ, suc, ◌≡◌, ◌≢◌, refl, ap, ◌∙◌, arith, true, false, some, none, inl, inr}
use async_fcgi.Base.{Bool-cases, ◌==◌}
use async_fcgi.BufVec.{BufList}
use async_fcgi.Fastcgi.Record.{Record, Body, EndRequestBody}
use async_fcgi.Client.Requests.{Request, Slab, get, put, distribute}
use async_fcgi.Client.Requests.Slots.{get-put_ne}
use async_fcgi.Client.Requests.Aborted.{distribute_aborted}
use async_fcgi.Client.Requests.Delivery.{distribute_isolated}
use async_fcgi.Client.Requests.Changes.{Changes, same, wrote, IsRunning}
use async_fcgi.Client.Connection.{notify_everyone}
use async_fcgi.Client.Connection.Laws.{notify_everyone-AllNotified}
use async_fcgi.Client.Body.{FcgiBody, drop_body}
use async_fcgi.Client.Body.Abort.{drop_body_marks, drop_body_unlocked}
use async_fcgi.Client.Body.Changes.{take_frame-Changes, drop_body-Changes}
use async_fcgi.Client.Response.Changes.{give_back-Changes}
use async_fcgi.Client.Forward.{Inserted, new_request}
use async_fcgi.Client.Lifecycle.{Actor, owner, Works, receives, notifies, polls, drops, gives_back}
use async_fcgi.Client.Lifecycle.Orphans.{Others, Others-IsRunning}
use async_fcgi.Client.Lifecycle.Inserts.{Inserted-other}

-- The record does not end the request of the slot `k`.
abbrev pub Spares : ℕ → Record → Type 0
Spares k r =
    r.header.request_id ≡ suc k → (status : EndRequestBody) → r.body ≢ Body.end_request status

-- The work is no record that ends the request of the slot `k`.
abbrev pub IsSparing : {actor : Actor} {slab slab' : Slab} → ℕ → Works actor slab slab' → Type 0
IsSparing k (receives slab r) = Spares k r
IsSparing k _ = Unit

-- Whatever happens to the slab, but for the owner of a body with the key `k`, as long as the
-- application does not end its request.
pub data Unended (k : ℕ) (slab : Slab) : Slab → Type 0 where
  here : Unended k slab slab
  worked :
      {slab1 slab2 : Slab} (actor : Actor)
      → Unended k slab slab1
      → actor ≢ owner k
      → (w : Works actor slab1 slab2) → IsSparing k w
      → Unended k slab slab2
  inserted :
      {slab1 slab2 : Slab} (key : ℕ)
      → Unended k slab slab1
      → Inserted slab1 new_request key slab2
      → Unended k slab slab2

-- The slot `k` is occupied by an aborted request with these buffers.
pub record IsDropped (buf : BufList) (k : ℕ) (slab : Slab) : Type 0 where
  pub request : Request
  pub in_slot : get slab k ≡ some request
  pub is_aborted : request.aborted ≡ true
  pub same_buf : request.buf ≡ buf

in_same_slot :
    {buf : BufList} {k : ℕ} {slab : Slab} (slab' : Slab) (d : IsDropped buf k slab)
    → get slab' k ≡ get slab k
    → IsDropped buf k slab'
in_same_slot slab' d e = record {
  request = d.request;
  in_slot = e ∙ d.in_slot;
  is_aborted = d.is_aborted;
  same_buf = d.same_buf;
}

distribute-IsDropped :
    (slab : Slab) (r : Record) (buf : BufList) (k : ℕ)
    → Spares k r
    → IsDropped buf k slab
    → IsDropped buf k (distribute slab r).0
distribute-IsDropped slab r buf k spares d = elim (Bool-cases (r.header.request_id == suc k)) [
  | inl mine ↦
      let own : r.header.request_id ≡ suc k = ground arith in
      in_same_slot _ d (
        ap (λ x. get x.0 k)
          ((distribute_aborted slab r k d.request own d.in_slot d.is_aborted).0 (spares own)))
  | inr elsewhere ↦ in_same_slot _ d (distribute_isolated slab r k (λ p. ground arith))
]

Changes-IsDropped :
    {slab : Slab} {j : ℕ} {slab' : Slab} (buf : BufList) (k : ℕ)
    → j ≢ k
    → Changes j slab slab'
    → IsDropped buf k slab
    → IsDropped buf k slab'
Changes-IsDropped buf k ne same d = d
Changes-IsDropped {slab} {j} buf k ne (wrote req v e b) d =
    in_same_slot (put slab j v) d (get-put_ne slab j k v ne)

notify_everyone-IsDropped :
    (slab : Slab) (buf : BufList) (k : ℕ)
    → IsDropped buf k slab
    → IsDropped buf k (notify_everyone slab).0
notify_everyone-IsDropped slab buf k d =
    let (req', g, n) = (notify_everyone-AllNotified slab).2 k d.request d.in_slot in
    record {
      request = req';
      in_slot = g;
      is_aborted = n.same_aborted ∙ d.is_aborted;
      same_buf = n.same_buf ∙ d.same_buf;
    }

Works-IsDropped :
    {actor : Actor} {slab slab' : Slab} (buf : BufList) (k : ℕ)
    → actor ≢ owner k
    → (w : Works actor slab slab') → IsSparing k w
    → IsDropped buf k slab
    → IsDropped buf k slab'
Works-IsDropped buf k ne (receives slab r) sp d = distribute-IsDropped slab r buf k sp d
Works-IsDropped buf k ne (notifies slab) sp d = notify_everyone-IsDropped slab buf k d
Works-IsDropped buf k ne (polls slab task body f e) sp d =
    Changes-IsDropped buf k (λ s. ne (ap owner s)) (take_frame-Changes task body slab f e) d
Works-IsDropped buf k ne (drops slab locked body) sp d =
    Changes-IsDropped buf k (λ s. ne (ap owner s)) (drop_body-Changes locked body slab) d
Works-IsDropped buf k ne (gives_back slab rid bodydata slab' e) sp d =
    Changes-IsDropped buf k (λ s. ne (ap owner s)) (give_back-Changes slab rid bodydata slab' e) d

Unended-IsDropped :
    {k : ℕ} {slab slab' : Slab} (buf : BufList)
    → Unended k slab slab'
    → IsDropped buf k slab
    → IsDropped buf k slab'
Unended-IsDropped buf here d = d
Unended-IsDropped {k} buf (worked actor u ne w sp) d =
    Works-IsDropped buf k ne w sp (Unended-IsDropped buf u d)
Unended-IsDropped {k} buf (inserted key u ins) d =
    let before = Unended-IsDropped buf u d in
    record {
      request = before.request;
      in_slot = Inserted-other ins k before.request before.in_slot;
      is_aborted = before.is_aborted;
      same_buf = before.same_buf;
    }

-- After a body that is not done is dropped with the connection locked, its request stays in its
-- slot, marked as aborted and with the buffers that it had, through any sequence of records that
-- do not end it, work of the other requests, insertions and notifications, also those of a lost
-- connection.
pub drop_body-Unended :
    (body : FcgiBody) (slab slab' : Slab) (req : Request)
    → body.done ≡ false
    → get slab body.rid ≡ some req
    → Unended body.rid (drop_body true body slab) slab'
    → IsDropped req.buf body.rid slab'
drop_body-Unended body slab slab' req live e u = Unended-IsDropped req.buf u (record {
  request = record req { aborted = true; waker = none };
  in_slot = drop_body_marks body slab req live e;
  is_aborted = refl;
  same_buf = refl;
})

-- If a body that is not done is dropped while another task has the mutex, its request, when it
-- has a slot and is not aborted, is not marked as aborted either: whatever records arrive, its
-- end included, and whatever other requests do, it keeps its slot.
pub drop_body_contended :
    (body : FcgiBody) (slab slab' : Slab) (req : Request)
    → body.done ≡ false
    → get slab body.rid ≡ some req
    → req.aborted ≡ false
    → Others body.rid (drop_body false body slab) slab'
    → IsRunning slab' body.rid
drop_body_contended body slab slab' req live e running others =
    Others-IsRunning (rw (drop_body_unlocked body slab) at others)
      (record { request = req; in_slot = e; not_aborted = running })
