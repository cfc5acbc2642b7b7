-- ===== src/Client/Body/Consume.antt =====
-- client/connection.rs: a consumer that polls `FCGIBody` until it ends.
use async_fcgi.Base.{ℕ, suc, ◌+◌, ◌<◌, ◌≡◌, ◌≢◌, refl, ap, sym, ◌∙◌, arith, true, false}
use async_fcgi.Base.{
  Bool, List, [], ◌∷◌, ◌++◌, Option, none, some, length, append-nil, if◌then◌else◌,
}
use mathlib.Core.Option
use async_fcgi.Base.Result.{Res, ok, panic, ◌>>=◌}
use async_fcgi.Bytes.{Bytes}
use async_fcgi.BufVec.{BufList}
use async_fcgi.BufVec.Laws.{contents}
use async_fcgi.Client.Requests.{Request, Slab, Waker, get}
use async_fcgi.Client.Connection.{InnerConnection, fill_pending, poll_resp}
use async_fcgi.Client.Body.{
  FcgiBody, frame_pending, frame_end, frame_data, Framed, take_frame, poll_frame,
}
use async_fcgi.Client.Body.Laws.{Takes, more, last, ends, ends_early, waits, take_frame-Takes}

-- What a consumer has got when a body ends or when it polls no more, and what is left then.
pub record Consumed : Type 0 where
  pub received : Bytes
  pub at_end : Bool
  pub body : FcgiBody
  pub inner : InnerConnection

true≢false : true ≢ false
true≢false e = cc

got : Bytes → Consumed → Consumed
got chunk c = record c { received = chunk ++ c.received }

-- One poll after the other, while the socket has nothing to read: `locks` says of each whether it gets
-- the mutex. `none` means that the loop of `poll_resp` ran out of fuel.
pub consume : List Bool → Waker → FcgiBody → InnerConnection → Option (Res Consumed)
unfolding got
consume [] task body c =
    some (ok (record { received = []; at_end = false; body = body; inner = c }))
consume (locked ∷ locks) task body c = elim (poll_frame task locked fill_pending body c) [
  | none ↦ none
  | some panic ↦ some panic
  | some (ok (frame_pending, body', c', woken)) ↦ consume locks task body' c'
  | some (ok (frame_end, body', c', woken)) ↦
      some (ok (record { received = []; at_end = true; body = body'; inner = c' }))
  | some (ok (frame_data chunk, body', c', woken)) ↦
      Option.map (λ res. res >>= λ r. ok (got chunk r)) (consume locks task body' c')
]

-- The polls that get the mutex.
abbrev pub locked_polls : List Bool → ℕ
locked_polls [] = 0
locked_polls (locked ∷ locks) = let rest = locked_polls locks in if locked then suc rest else rest

-- What a consumer of a returned body gets of a request, and what is left of the request.
pub record IsConsumed (task : Waker) (body : FcgiBody) (req : Request) (r : Consumed) : Type 0 where
  pub all_received : r.received ≡ contents req.buf
  pub same_end : r.at_end ≡ req.ended
  pub freed :
      req.ended ≡ true
      → (r.body ≡ record body { done = true }) × (get r.inner.running_requests body.rid ≡ none)
  pub kept :
      req.ended ≡ false
      → (r.body ≡ body)
        × (empty : BufList) × (contents empty ≡ [])
        × (get r.inner.running_requests body.rid
            ≡ some (record req { buf = empty; waker = some task }))

-- The consumer ends as it should.
abbrev pub Ends : List Bool → Waker → FcgiBody → InnerConnection → Request → Type 0
Ends locks task body c req =
    (r : Consumed) × (consume locks task body c ≡ some (ok r)) × IsConsumed task body req r

-- The connection after a poll that left these requests.
abbrev with_requests : InnerConnection → Slab → InnerConnection
with_requests c slab = record c { running_requests = slab }

module _ (task : Waker) (body : FcgiBody) (c : InnerConnection) where
  poll_frame_taken :
      (f : Framed)
      → body.done ≡ false
      → take_frame task body c.running_requests ≡ ok f
      → poll_frame task true fill_pending body c
        ≡ some (ok (f.result, f.body, with_requests c f.running_requests, []))
  unfolding poll_frame poll_resp take_frame
  poll_frame_taken f live e = rw (e, live) refl

  -- Without the mutex, nothing happens, and the waker is stored nowhere.
  poll_frame_contended :
      body.done ≡ false
      → poll_frame task false fill_pending body c ≡ some (ok (frame_pending, body, c, []))
  unfolding poll_frame
  poll_frame_contended live = rw (live) refl

  poll_frame_done :
      (locked : Bool)
      → body.done ≡ true
      → poll_frame task locked fill_pending body c ≡ some (ok (frame_end, body, c, []))
  unfolding poll_frame
  poll_frame_done locked d = rw (d) refl

  consume_done :
      (locks : List Bool)
      → 0 < locked_polls locks
      → body.done ≡ true
      → consume locks task body c
        ≡ some (ok (record { received = []; at_end = true; body = body; inner = c }))
  unfolding consume
  consume_done [] h d = absurd (omega arith)
  consume_done (locked ∷ locks) h d = rw (consume, poll_frame_done locked d) refl

  -- A poll without the mutex changes nothing.
  skips :
      (locks : List Bool) (req : Request)
      → body.done ≡ false
      → Ends locks task body c req
      → Ends (false ∷ locks) task body c req
  unfolding consume
  skips locks req live (r, e, i) = (r, rw (consume, poll_frame_contended live) e, i)

  -- A poll that hands out a buffer, and the polls behind it.
  takes_more :
      (locks : List Bool) (req : Request) (f : Framed) (chunk : Bytes) (rest : BufList)
      → body.done ≡ false
      → take_frame task body c.running_requests ≡ ok f
      → f.result ≡ frame_data chunk
      → f.body ≡ body
      → contents req.buf ≡ chunk ++ contents rest
      → Ends locks task body (with_requests c f.running_requests) (record req { buf = rest })
      → Ends (true ∷ locks) task body c req
  unfolding consume got
  takes_more locks req f chunk rest live e r fb b (res, er, i) = (
    got chunk res,
    rw (consume, poll_frame_taken f live e, r, fb, er) refl,
    record {
      all_received = ap (◌++◌ chunk) i.all_received ∙ sym b;
      same_end = i.same_end;
      freed = i.freed;
      kept = i.kept;
    },
  )

  -- A poll that has to wait, and the polls behind it.
  takes_nothing :
      (locks : List Bool) (req : Request) (f : Framed)
      → body.done ≡ false
      → take_frame task body c.running_requests ≡ ok f
      → f.result ≡ frame_pending
      → f.body ≡ body
      → Ends locks task body (with_requests c f.running_requests) (record req { waker = some task })
      → Ends (true ∷ locks) task body c req
  unfolding consume
  takes_nothing locks req f live e r fb (res, er, i) = (
    res,
    rw (consume, poll_frame_taken f live e, r, fb) er,
    record { all_received = i.all_received; same_end = i.same_end; freed = i.freed; kept = i.kept },
  )

append_empty : (xs ys : Bytes) → xs ++ ys ≡ [] → (xs ≡ []) × (ys ≡ [])
append_empty [] ys e = (refl, e)
append_empty (x ∷ xs) ys e = absurd (cc)

-- Who waits with no byte left may poll on.
waiting :
    (locks : List Bool) (task : Waker) (body : FcgiBody) (c : InnerConnection) (req : Request)
    → get c.running_requests body.rid ≡ some req
    → body.done ≡ false
    → contents req.buf ≡ []
    → req.ended ≡ false
    → req.waker ≡ some task
    → Ends locks task body c req
unfolding consume
waiting [] task body c req g live b running w = (
  record { received = []; at_end = false; body = body; inner = c },
  refl,
  record {
    all_received = sym b;
    same_end = sym running;
    freed = λ n. absurd (true≢false (sym n ∙ running));
    kept = λ _. (refl, req.buf, b, g ∙ ap (λ o. some (record req { waker = o })) w);
  },
)
waiting (false ∷ locks) task body c req g live b running w =
    skips task body c locks req live (waiting locks task body c req g live b running w)
waiting (true ∷ locks) task body c req g live b running w =
    let (f, e, t) = take_frame-Takes task body c.running_requests req g in
    go (λ c' req' g' b' running' w'. waiting locks task body c' req' g' live b' running' w') f e t
  where
    go :
        ((c' : InnerConnection) (req' : Request)
          → get c'.running_requests body.rid ≡ some req'
          → contents req'.buf ≡ []
          → req'.ended ≡ false
          → req'.waker ≡ some task
          → Ends locks task body c' req')
        → (f : Framed) → take_frame task body c.running_requests ≡ ok f
        → Takes task body req f
        → Ends (true ∷ locks) task body c req
    go on f e (more chunk rest r h s fb g') =
        takes_more task body c locks req f chunk rest live e r fb h (
          on (with_requests c f.running_requests) (record req { buf = rest }) g'
            (append_empty chunk (contents rest) (sym h ∙ b)).1 running w)
    go on f e (last chunk r h ended was fb g') = absurd (true≢false (sym ended ∙ running))
    go on f e (ends r h ended was fb g') = absurd (true≢false (sym ended ∙ running))
    go on f e (ends_early r h ended early fb g') = absurd (true≢false (sym ended ∙ running))
    go on f e (waits r h n fb g') = takes_nothing task body c locks req f live e r fb (
        on (with_requests c f.running_requests) (record req { waker = some task }) g' b running
          refl)

-- While the socket has nothing to read, a consumer polls a returned body that is not done, whose
-- request has a slot. Each poll gets the mutex or not; more of them get it than the request has
-- buffers, by two at least. Then the consumer receives every byte that the request has, in order.
-- If the request is ended, it gets the end and the slot is free; otherwise every further poll is
-- pending, with its task as the waker in the slot and no byte left there.
pub consume-IsConsumed :
    (locks : List Bool) (task : Waker) (body : FcgiBody) (c : InnerConnection) (req : Request)
    → get c.running_requests body.rid ≡ some req
    → body.was_returned ≡ true
    → body.done ≡ false
    → length req.buf.bufs + 1 < locked_polls locks
    → (r : Consumed) × (consume locks task body c ≡ some (ok r)) × IsConsumed task body req r
unfolding consume
consume-IsConsumed [] task body c req g ret live h = absurd (omega arith)
consume-IsConsumed (false ∷ locks) task body c req g ret live h =
    skips task body c locks req live (consume-IsConsumed locks task body c req g ret live h)
consume-IsConsumed (true ∷ locks) task body c req g ret live h =
    let (f, e, t) = take_frame-Takes task body c.running_requests req g in
    go
      (λ c' rest g' fewer.
        consume-IsConsumed locks task body c' (record req { buf = rest }) g' ret live fewer)
      f e t
  where
    go :
        ((c' : InnerConnection) (rest : BufList)
          → get c'.running_requests body.rid ≡ some (record req { buf = rest })
          → length rest.bufs + 1 < locked_polls locks
          → Ends locks task body c' (record req { buf = rest }))
        → (f : Framed) → take_frame task body c.running_requests ≡ ok f
        → Takes task body req f
        → Ends (true ∷ locks) task body c req
    go on f e (more chunk rest r b s fb g') =
        takes_more task body c locks req f chunk rest live e r fb b
          (on (with_requests c f.running_requests) rest g' (omega arith))
    go on f e (last chunk r b ended was fb g') = (
      record {
        received = chunk ++ [];
        at_end = true;
        body = f.body;
        inner = with_requests c f.running_requests;
      },
      rw
          (
            consume,
            poll_frame_taken task body c f live e,
            r,
            consume_done task f.body (with_requests c f.running_requests) locks (omega arith)
                (ap (λ x. x.done) fb),
          )
          refl,
      record {
        all_received = append-nil chunk ∙ sym b;
        same_end = sym ended;
        freed = λ _. (fb, g');
        kept = λ n. absurd (true≢false (sym ended ∙ n));
      },
    )
    go on f e (ends r b ended was fb g') = (
      record {
        received = [];
        at_end = true;
        body = f.body;
        inner = with_requests c f.running_requests;
      },
      rw (consume, poll_frame_taken task body c f live e, r) refl,
      record {
        all_received = sym b;
        same_end = sym ended;
        freed = λ _. (fb, g');
        kept = λ n. absurd (true≢false (sym ended ∙ n));
      },
    )
    go on f e (ends_early r b ended early fb g') = absurd (true≢false (sym ret ∙ early))
    go on f e (waits r b running fb g') = takes_nothing task body c locks req f live e r fb (
        waiting locks task body (with_requests c f.running_requests)
          (record req { waker = some task }) g' live b running refl)
