-- ===== src/Client/Requests.antt =====
-- client/connection.rs: the requests that share one connection, and how the records that are read
-- reach them.
pub mod Slots
pub mod Delivery
pub mod Loop
pub mod Aborted
pub mod Changes
use async_fcgi.Base.{
  ℕ, zero, suc, ◌+◌, ◌-◌, Bool, true, false, List, [], ◌∷◌, ◌++◌, Option, none, some,
}
use async_fcgi.Base.{length, get_elem?, ltb, leb, ◌==◌, if◌then◌else◌, ◌&&◌, not}
use async_fcgi.Base.Result.{Res, ok, panic, ◌>>=◌}
use async_fcgi.Bytes.{Bytes}
use async_fcgi.BufVec.{BufList}
use async_fcgi.BufVec
use async_fcgi.Fastcgi.Record.{Record, Body, get_request_id}
use async_fcgi.Fastcgi.RecordReader.{RecordReader}
use async_fcgi.Fastcgi.RecordReader

-- A waker is the number of the task that it wakes.
abbrev pub Waker : Type 0
Waker = ℕ

-- `FCGIRequest`. Its permit is given back when it is dropped, that is when its slot becomes free.
pub record Request : Type 0 where
  pub buf : BufList
  pub waker : Option Waker
  pub ended : Bool
  pub aborted : Bool

-- The slots of the `Slab`, by their keys; `none` is a vacant one.
abbrev pub Slab : Type 0
Slab = List (Option Request)

unfoldable pub get : Slab → ℕ → Option Request
get [] k = none
get (slot ∷ slots) zero = slot
get (slot ∷ slots) (suc k) = get slots k

-- A write to an occupied slot, or its removal.
unfoldable pub put : Slab → ℕ → Option Request → Slab
put [] k v = []
put (slot ∷ slots) zero v = v ∷ slots
put (slot ∷ slots) (suc k) v = slot ∷ put slots k v

-- `waker.take()` followed by `wake()`: the tasks that are woken.
unfoldable pub wake : Option Waker → List Waker
wake none = []
wake (some w) = w ∷ []

-- What is done with a record for an occupied slot.
on_end_request : Slab → ℕ → Request → Slab × List Waker
unfolding wake
on_end_request slab req_no mpxs =
    let done = record mpxs { ended = true; waker = none } in
    (if mpxs.aborted then put slab req_no none else put slab req_no (some done), wake mpxs.waker)

on_std_out : Slab → ℕ → Request → Bytes → Slab × List Waker
unfolding wake
on_std_out slab req_no mpxs [] = (slab, [])
on_std_out slab req_no mpxs (b ∷ bs) =
    let fed = record mpxs { buf = BufVec.push mpxs.buf (b ∷ bs); waker = none } in
    (put slab req_no (some fed), wake mpxs.waker)

pub on_body : Slab → ℕ → Request → Body → Slab × List Waker
unfolding on_end_request on_std_out
on_body slab req_no mpxs (Body.end_request status) = on_end_request slab req_no mpxs
on_body slab req_no mpxs (Body.std_out s) =
    if mpxs.aborted then (slab, []) else on_std_out slab req_no mpxs s
on_body slab req_no mpxs _ = (slab, [])

on_slot : Slab → ℕ → Option Request → Body → Slab × List Waker
unfolding on_body
on_slot slab req_no none body = (slab, [])
on_slot slab req_no (some mpxs) body = on_body slab req_no mpxs body

on_request : Slab → ℕ → Body → Slab × List Waker
unfolding on_slot
on_request slab zero body = (slab, [])
on_request slab (suc req_no) body = on_slot slab req_no (get slab req_no) body

-- The body of the loop in `parse_and_distribute`: the slab, and the tasks that are woken.
pub distribute : Slab → Record → Slab × List Waker
unfolding on_request
distribute slab r = on_request slab (get_request_id r) r.body

-- What `parse_and_distribute` leaves: the slab, the parser, the bytes that it did not read, and the
-- tasks that it woke.
pub record Distributed : Type 0 where
  pub running_requests : Slab
  pub fcgi_parser : RecordReader
  pub left : Bytes
  pub woken : List Waker

-- `none` means that the fuel ran out.
distribute_loop : ℕ → Bytes → Slab → RecordReader → List Waker → Option (Res Distributed)
distribute_loop zero d slab parser woken = none
distribute_loop (suc fuel) d slab parser woken = elim (RecordReader.read parser d) [
  | panic ↦ some panic
  | ok (none, parser', d') ↦
      some
        (ok (record { running_requests = slab; fcgi_parser = parser'; left = d'; woken = woken }))
  | ok (some r, parser', d') ↦
      let (slab', w) = distribute slab r in distribute_loop fuel d' slab' parser' (woken ++ w)
]

-- Each round takes a byte or finishes a header that was kept, so this fuel is enough.
pub parse_and_distribute : Bytes → Slab → RecordReader → Option (Res Distributed)
unfolding distribute_loop
parse_and_distribute d slab parser = distribute_loop (length d + 2) d slab parser []
