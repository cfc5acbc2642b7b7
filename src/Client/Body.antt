-- ===== src/Client/Body.antt =====
-- client/connection.rs: `FCGIBody`, the output of one request as its consumer reads it.
pub mod Laws
pub mod Consume
pub mod Abort
pub mod Changes
use async_fcgi.Base.{ℕ, Bool, true, false, List, [], Option, none, some}
use async_fcgi.Base.{ltb, leb, if◌then◌else◌, ◌&&◌, not}
use async_fcgi.Base.Result.{Res, ok, panic, ◌>>=◌}
use async_fcgi.Bytes.{Bytes}
use async_fcgi.BufVec.{BufList}
use async_fcgi.BufVec
use async_fcgi.Client.Requests.{Request, Slab, Waker, get, put}
use async_fcgi.Client.Connection.{InnerConnection, FillBuf, poll_resp}

-- `FCGIBody`; the shared connection is an argument of its methods.
pub record FcgiBody : Type 0 where
  pub rid : ℕ
  pub done : Bool
  pub was_returned : Bool

-- `Poll<Option<Result<Frame, IoError>>>`; the code never returns an error here.
pub data PollFrame : Type 0 where
  frame_pending frame_end : PollFrame
  frame_data : Bytes → PollFrame

-- What a call of `poll_frame` leaves of the body and of the requests.
pub record Framed : Type 0 where
  pub result : PollFrame
  pub body : FcgiBody
  pub running_requests : Slab

-- The request has bytes: the oldest buffer is handed out. The slot is released at once if no
-- further read will have data.
hand_out : FcgiBody → Slab → Request → Option Bytes × BufList → Res Framed
hand_out body slab req (none, rest) = panic
hand_out body slab req (some chunk, rest) =
    if body.was_returned && req.ended && ltb (BufVec.remaining rest) 1
    then ok (record {
      result = frame_data chunk;
      body = record body { done = true };
      running_requests = put slab body.rid none;
    })
    else ok (record {
      result = frame_data chunk;
      body = body;
      running_requests = put slab body.rid (some (record req { buf = rest }));
    })

-- The request has no bytes.
no_data : Waker → FcgiBody → Slab → Request → Framed
no_data task body slab req =
    if req.ended
    then (if body.was_returned
        then (record {
          result = frame_end;
          body = record body { done = true };
          running_requests = put slab body.rid none;
        })
        else (record { result = frame_end; body = body; running_requests = slab }))
    else (record {
      result = frame_pending;
      body = body;
      running_requests = put slab body.rid (some (record req { waker = some task }));
    })

frame_of : Waker → FcgiBody → Slab → Option Request → Res Framed
unfolding hand_out no_data
frame_of task body slab none =
    ok (record { result = frame_end; body = record body { done = true }; running_requests = slab })
frame_of task body slab (some req) =
    if leb 1 (BufVec.remaining req.buf)
    then hand_out body slab req (BufVec.oldest req.buf)
    else ok (no_data task body slab req)

-- The part of `poll_frame` that works with the slab.
pub take_frame : Waker → FcgiBody → Slab → Res Framed
unfolding frame_of
take_frame task body slab = frame_of task body slab (get slab body.rid)

-- `poll_frame` of `FCGIBody`: `locked` says whether the mutex could be taken.
unfoldable pub poll_frame :
    Waker
    → Bool
    → FillBuf
    → FcgiBody
    → InnerConnection
    → Option (Res (PollFrame × FcgiBody × InnerConnection × List Waker))
unfolding take_frame
poll_frame task locked fill body c =
    if body.done
    then some (ok (frame_end, body, c, []))
    else if not locked
    then some (ok (frame_pending, body, c, []))
    else elim (poll_resp fill c) [
      | none ↦ none
      | some panic ↦ some panic
      | some (ok p) ↦ some (
          take_frame task body p.inner.running_requests >>= λ f.
          ok
            (f.result, f.body, record (p.inner) { running_requests = f.running_requests }, p.woken))
    ]

abort_slot : Slab → ℕ → Option Request → Slab
abort_slot slab k none = slab
abort_slot slab k (some req) = put slab k (some (record req { aborted = true; waker = none }))

-- `drop` of `FCGIBody`: `locked` says whether the mutex could be taken.
pub drop_body : Bool → FcgiBody → Slab → Slab
unfolding abort_slot
drop_body locked body slab =
    if body.done
    then slab
    else if locked
    then abort_slot slab body.rid (get slab body.rid)
    else slab
