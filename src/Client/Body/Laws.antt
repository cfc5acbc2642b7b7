-- ===== src/Client/Body/Laws.antt =====
-- client/connection.rs: what a consumer of `FCGIBody` gets, and what becomes of the slot.
use async_fcgi.Base.{ℕ, ◌<◌, ◌≡◌, refl, ap, ◌∙◌, arith, true, false, inl, inr}
use async_fcgi.Base.{
  Bool, List, [], ◌∷◌, ◌++◌, Option, none, some, length, ltb, leb, Bool-cases, append-nil, ltb→lt,
}
use async_fcgi.Base.{le→leb, length-append, eq_nil_of_length}
use async_fcgi.Base.Result.{ok}
use async_fcgi.Bytes.{Bytes}
use async_fcgi.BufVec.{BufList}
use async_fcgi.BufVec
use async_fcgi.BufVec.Laws.{contents, remaining-length}
use async_fcgi.Client.Requests.{Request, Slab, Waker, get, put}
use async_fcgi.Client.Requests.Slots.{get-put_self}
use async_fcgi.Client.Body.{FcgiBody, frame_pending, frame_end, frame_data, Framed}
use async_fcgi.Client.Body.{hand_out, no_data, frame_of, take_frame}

-- What a call of `poll_frame` may do for a request that has a slot.
pub data Takes (task : Waker) (body : FcgiBody) (req : Request) (f : Framed) : Type 0 where
  more :
      (chunk : Bytes) (rest : BufList)
      → f.result ≡ frame_data chunk
      → contents req.buf ≡ chunk ++ contents rest
      → length rest.bufs < length req.buf.bufs
      → f.body ≡ body
      → get f.running_requests body.rid ≡ some (record req { buf = rest })
      → Takes task body req f
  last :
      (chunk : Bytes)
      → f.result ≡ frame_data chunk
      → contents req.buf ≡ chunk
      → req.ended ≡ true
      → body.was_returned ≡ true
      → f.body ≡ record body { done = true }
      → get f.running_requests body.rid ≡ none
      → Takes task body req f
  ends :
      f.result ≡ frame_end
      → contents req.buf ≡ []
      → req.ended ≡ true
      → body.was_returned ≡ true
      → f.body ≡ record body { done = true }
      → get f.running_requests body.rid ≡ none
      → Takes task body req f
  ends_early :
      f.result ≡ frame_end
      → contents req.buf ≡ []
      → req.ended ≡ true
      → body.was_returned ≡ false
      → f.body ≡ body
      → get f.running_requests body.rid ≡ some req
      → Takes task body req f
  waits :
      f.result ≡ frame_pending
      → contents req.buf ≡ []
      → req.ended ≡ false
      → f.body ≡ body
      → get f.running_requests body.rid ≡ some (record req { waker = some task })
      → Takes task body req f

-- A body and a request, field by field.
abbrev body_at : ℕ → Bool → Bool → FcgiBody
body_at rid done was_returned = record { rid = rid; done = done; was_returned = was_returned }

abbrev request_at : List Bytes → Option Waker → Bool → Bool → Request
request_at bufs waker ended aborted = record {
  buf = record { bufs = bufs };
  waker = waker;
  ended = ended;
  aborted = aborted;
}

module _ (task : Waker) (slab : Slab) (rid : ℕ) (done aborted : Bool) (waker : Option Waker) where
  keep_rest :
      (was_returned ended : Bool) (chunk : Bytes) (rest : List Bytes)
      → get slab rid ≡ some (request_at (chunk ∷ rest) waker ended aborted)
      → Takes task
          (body_at rid done was_returned)
          (request_at (chunk ∷ rest) waker ended aborted)
          (record {
            result = frame_data chunk;
            body = body_at rid done was_returned;
            running_requests = put slab rid (some (request_at rest waker ended aborted));
          })
  keep_rest was_returned ended chunk rest e =
      more chunk (record { bufs = rest }) refl refl (omega arith) refl (get-put_self slab rid _ e)

  hand_out-Takes :
      (was_returned ended : Bool) (chunk : Bytes) (rest : List Bytes)
      → get slab rid ≡ some (request_at (chunk ∷ rest) waker ended aborted)
      → (f : Framed) × (hand_out
            (body_at rid done was_returned)
            slab
            (request_at (chunk ∷ rest) waker ended aborted)
            (some chunk, record { bufs = rest })
          ≡ ok f)
        × Takes task
            (body_at rid done was_returned)
            (request_at (chunk ∷ rest) waker ended aborted)
            f
  unfolding hand_out
  hand_out-Takes false ended chunk rest e = (_, refl, keep_rest false ended chunk rest e)
  hand_out-Takes true false chunk rest e = (_, refl, keep_rest true false chunk rest e)
  hand_out-Takes true true chunk rest e =
      elim (Bool-cases (ltb (BufVec.remaining (record { bufs = rest })) 1)) [
        | inl all ↦ (
          _,
          rw (all) refl,
          last chunk refl (nothing_left (ltb→lt _ _ all)) refl refl refl
              (get-put_self slab rid none e),
        )
        | inr some_left ↦ (_, rw (some_left) refl, keep_rest true true chunk rest e)
      ]
    where
      nothing_left :
          BufVec.remaining (record { bufs = rest }) < 1
          → contents (record { bufs = chunk ∷ rest }) ≡ chunk
      nothing_left h =
          ap (◌++◌ chunk)
            (eq_nil_of_length _ (omega (arith, remaining-length (record { bufs = rest }))))
          ∙ append-nil chunk

  no_data-Takes :
      (was_returned ended : Bool) (bufs : List Bytes)
      → get slab rid ≡ some (request_at bufs waker ended aborted)
      → contents (record { bufs = bufs }) ≡ []
      → Takes task
          (body_at rid done was_returned)
          (request_at bufs waker ended aborted)
          (no_data task (body_at rid done was_returned) slab (request_at bufs waker ended aborted))
  unfolding no_data
  no_data-Takes was_returned false bufs e h = waits refl h refl refl (get-put_self slab rid _ e)
  no_data-Takes true true bufs e h = ends refl h refl refl refl (get-put_self slab rid _ e)
  no_data-Takes false true bufs e h = ends_early refl h refl refl refl e

  frame_of-Takes :
      (was_returned ended : Bool) (bufs : List Bytes)
      → get slab rid ≡ some (request_at bufs waker ended aborted)
      → (f : Framed) × (frame_of task
            (body_at rid done was_returned)
            slab
            (some (request_at bufs waker ended aborted))
          ≡ ok f)
        × Takes task (body_at rid done was_returned) (request_at bufs waker ended aborted) f
  unfolding frame_of BufVec.oldest
  frame_of-Takes was_returned ended [] e = (
    no_data task (body_at rid done was_returned) slab (request_at [] waker ended aborted),
    unfold BufVec.remaining in refl,
    no_data-Takes was_returned ended [] e refl,
  )
  frame_of-Takes was_returned ended (chunk ∷ rest) e =
      elim (Bool-cases (leb 1 (BufVec.remaining (record { bufs = chunk ∷ rest })))) [
        | inl full ↦
            let (f, ef, t) = hand_out-Takes was_returned ended chunk rest e in (f, rw (full) ef, t)
        | inr empty ↦ (
          _,
          rw (empty) refl,
          no_data-Takes was_returned ended (chunk ∷ rest) e (
              eq_nil_of_length _
                (ground (arith, remaining-length (record { bufs = chunk ∷ rest })))),
        )
      ]

pub take_frame-Takes :
    (task : Waker) (body : FcgiBody) (slab : Slab) (req : Request)
    → get slab body.rid ≡ some req
    → (f : Framed) × (take_frame task body slab ≡ ok f) × Takes task body req f
unfolding take_frame
take_frame-Takes task body slab req e = rw (e) (
    frame_of-Takes task slab body.rid body.done req.aborted req.waker body.was_returned req.ended
      req.buf.bufs e)

-- Before the body is returned, the oldest buffer is handed out and the others are kept.
pub take_frame_early :
    (task : Waker) (body : FcgiBody) (slab : Slab) (req : Request) (chunk : Bytes)
    (rest : List Bytes)
    → get slab body.rid ≡ some req
    → req.buf ≡ record { bufs = chunk ∷ rest }
    → 0 < length chunk
    → body.was_returned ≡ false
    → take_frame task body slab
      ≡ ok (record {
        result = frame_data chunk;
        body = body;
        running_requests = put slab body.rid (some (record req { buf = record { bufs = rest } }));
      })
unfolding take_frame frame_of hand_out BufVec.oldest
take_frame_early task body slab req chunk rest e b some_byte early =
    rw (e, b, some_left, early) refl
  where
    some_left : leb 1 (BufVec.remaining (record { bufs = chunk ∷ rest })) ≡ true
    some_left = le→leb _ _ (
        omega (
          arith,
          remaining-length (record { bufs = chunk ∷ rest }),
          length-append chunk (contents (record { bufs = rest })),
        ))
