-- ===== src/Client/Response.antt =====
-- client/connection.rs: `create_response`, which reads the head of a response off its body.
pub mod Changes
pub mod Head
use async_fcgi.Base.{
  ℕ, ◌<◌, ◌≡◌, refl, arith, List, [], ◌∷◌, ◌++◌, Option, none, some, false, length,
}
use async_fcgi.Base.Result.{Res, ok, panic, ◌>>=◌}
use async_fcgi.Bytes.{Bytes}
use async_fcgi.BufVec
use async_fcgi.BufVec.Laws.{contents, contents-push}
use async_fcgi.Httpparse.{ParseResult, parsed, pending, parse_err}
use async_fcgi.Client.Requests.{Request, Slab, Waker, get, put}
use async_fcgi.Client.Requests.Slots.{get-put_self}
use async_fcgi.Client.Body.{FcgiBody, PollFrame, frame_pending, frame_end, frame_data, take_frame}
use async_fcgi.Client.Body.Laws.{take_frame_early}

-- How a round of the loop ends: the head is read, or kept until more comes, or it is no head; or
-- there is no frame, yet or any more.
pub data Round : Type 0 where
  head_read head_bad no_frame waiting : Round
  keeps : Bytes → Round

-- What a round leaves.
pub record Rounded : Type 0 where
  pub round : Round
  pub body : FcgiBody
  pub running_requests : Slab

-- The bytes behind the head are given back to the request; a key without a slot is a panic.
push_behind : Slab → ℕ → Bytes → Option Request → Res Slab
push_behind slab rid bodydata none = panic
push_behind slab rid bodydata (some req) =
    ok (put slab rid (some (record req { buf = BufVec.push req.buf bodydata })))

pub give_back : Slab → ℕ → Bytes → Res Slab
unfolding push_behind
give_back slab rid [] = ok slab
give_back slab rid (b ∷ bs) = push_behind slab rid (b ∷ bs) (get slab rid)

-- What was kept goes in front of the new bytes.
abbrev join : Option Bytes → Bytes → Bytes
join none b = b
join (some left) b = left ++ b

-- What is done with the result of the parser on the bytes `b`.
with_head : Bytes → FcgiBody → Slab → ParseResult → Res Rounded
unfolding give_back
with_head b body slab pending =
    ok (record { round = keeps b; body = body; running_requests = slab })
with_head b body slab parse_err =
    ok (record { round = head_bad; body = body; running_requests = slab })
with_head b body slab (parsed bodydata) = do
  slab1 ← give_back slab body.rid bodydata
  ok (record { round = head_read; body = body; running_requests = slab1 })

-- `parse` of httpparse.rs parses by the crate httparse; here it is an argument.
module _ (parse : Bytes → ParseResult) where
  with_frame : Option Bytes → FcgiBody → Slab → PollFrame → Res Rounded
  unfolding with_head
  with_frame buf body slab frame_pending =
      ok (record { round = waiting; body = body; running_requests = slab })
  with_frame buf body slab frame_end =
      ok (record { round = no_frame; body = body; running_requests = slab })
  with_frame buf body slab (frame_data b) = with_head (join buf b) body slab (parse (join buf b))

  -- One round of the loop of `create_response`, on a connection that was polled.
  pub head_round : Waker → Option Bytes → FcgiBody → Slab → Res Rounded
  unfolding with_frame
  head_round task buf body slab = do
    f ← take_frame task body slab
    with_frame buf f.body f.running_requests f.result

  with_frame-parsed :
      (buf : Option Bytes) (body : FcgiBody) (slab : Slab) (req : Request) (chunk : Bytes) (b : ℕ)
      (bs : Bytes)
      → get slab body.rid ≡ some req
      → parse (join buf chunk) ≡ parsed (b ∷ bs)
      → with_frame buf body slab (frame_data chunk)
        ≡ ok (record {
          round = head_read;
          body = body;
          running_requests =
              put slab body.rid (some (record req { buf = BufVec.push req.buf (b ∷ bs) }));
        })
  unfolding with_frame with_head give_back push_behind
  with_frame-parsed buf body slab req chunk b bs e p = rw (p, e) refl

  -- Let the request of a body that was not returned yet have a slot and a first buffer that is
  -- not empty, and let the parser find the end of the head in it, together with what was kept,
  -- with bytes left behind the head. Then a round of `create_response` reads the head and puts
  -- these bytes behind the other buffers, so that they follow the output that came after them.
  pub head_round-contents :
      (task : Waker) (buf : Option Bytes) (body : FcgiBody) (slab : Slab) (req : Request)
      (chunk bodydata : Bytes) (rest : List Bytes)
      → get slab body.rid ≡ some req
      → req.buf ≡ record { bufs = chunk ∷ rest }
      → 0 < length chunk
      → body.was_returned ≡ false
      → parse (join buf chunk) ≡ parsed bodydata
      → 0 < length bodydata
      → (r : Rounded) × (req' : Request) × (head_round task buf body slab ≡ ok r)
        × (r.round ≡ head_read)
        × (get r.running_requests body.rid ≡ some req')
        × (contents req'.buf ≡ contents (record { bufs = rest }) ++ bodydata)
  unfolding head_round
  head_round-contents task buf body slab req chunk [] rest e b some_byte early p behind =
      absurd (omega arith)
  head_round-contents task buf body slab req chunk (x ∷ xs) rest e b some_byte early p behind =
      let slab1 : Slab = put slab body.rid (some (record req { buf = record { bufs = rest } })) in
      let req1 : Request = record req { buf = BufVec.push (record { bufs = rest }) (x ∷ xs) } in
      let found : get slab1 body.rid ≡ some (record req { buf = record { bufs = rest } }) =
        get-put_self slab body.rid _ e in
      (
        record {
          round = head_read;
          body = body;
          running_requests = put slab1 body.rid (some req1);
        },
        req1,
        rw (take_frame_early task body slab req chunk rest e b some_byte early)
            (with_frame-parsed buf body slab1 _ chunk x xs found p),
        refl,
        get-put_self slab1 body.rid (some req1) found,
        contents-push (record { bufs = rest }) (x ∷ xs),
      )
