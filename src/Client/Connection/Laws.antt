-- ===== src/Client/Connection/Laws.antt =====
-- client/connection.rs: how `poll_resp` ends the requests of a connection.
use async_fcgi.Base.{ℕ, zero, suc, ◌-◌, ◌<◌, ◌≡◌, refl, ap, arith, true, false}
use async_fcgi.Base.{List, [], ◌∷◌, ◌++◌, none, some, length, Bool-cases, inl, inr}
use mathlib.Core.Option
use async_fcgi.Base.Result.{ok}
use async_fcgi.Bytes.{Bytes}
use async_fcgi.Fastcgi.RecordReader.{RecordReader}
use async_fcgi.Client.Requests.{Request, Slab, Waker, get, wake, Distributed}
use async_fcgi.Client.Requests.Loop.{parse_and_distribute_short}
use async_fcgi.Client.Connection.{
  InnerConnection, FillBuf, fill_ok, fill_err, PollResp, resp_closed, resp_err,
}
use async_fcgi.Client.Connection.{
  Polled, notify_request, notify_everyone, poll_resp, after_read, give_up, ErrorKind, check_alive,
  alive,
}

-- What `notify_everyone` makes of one slot.
pub record IsNotified (before after : Request) : Type 0 where
  pub same_buf : after.buf ≡ before.buf
  pub same_aborted : after.aborted ≡ before.aborted
  pub no_waker : after.waker ≡ none
  pub ended_unless_aborted : before.aborted ≡ false → after.ended ≡ true
  pub kept_if_aborted : before.aborted ≡ true → after.ended ≡ before.ended

-- Every slot of `after` is what `notify_everyone` makes of the slot of `before`.
abbrev pub AllNotified : Slab → Slab → Type 0
AllNotified before after =
    (length after ≡ length before)
    × ((k : ℕ) → get before k ≡ none → get after k ≡ none)
    × ((k : ℕ) (req : Request)
        → get before k ≡ some req
        → (req' : Request) × (get after k ≡ some req') × IsNotified req req')

notify_request-IsNotified : (req : Request) → IsNotified req (notify_request req)
unfolding notify_request
notify_request-IsNotified req = record {
  same_buf = ground arith;
  same_aborted = ground arith;
  no_waker = ground arith;
  ended_unless_aborted = ground arith;
  kept_if_aborted = ground arith;
}

notify_everyone-get :
    (slab : Slab) (k : ℕ) → get (notify_everyone slab).0 k ≡ Option.map notify_request (get slab k)
unfolding notify_everyone get
notify_everyone-get [] k = refl
notify_everyone-get (none ∷ slots) zero = refl
notify_everyone-get (none ∷ slots) (suc k) = notify_everyone-get slots k
notify_everyone-get (some mpxs ∷ slots) zero = refl
notify_everyone-get (some mpxs ∷ slots) (suc k) = notify_everyone-get slots k

pub length-notify_everyone : (slab : Slab) → length (notify_everyone slab).0 ≡ length slab
unfolding notify_everyone
length-notify_everyone [] = refl
length-notify_everyone (none ∷ slots) = ap suc (length-notify_everyone slots)
length-notify_everyone (some mpxs ∷ slots) = ap suc (length-notify_everyone slots)

pub notify_everyone-AllNotified : (slab : Slab) → AllNotified slab (notify_everyone slab).0
notify_everyone-AllNotified slab = (
  length-notify_everyone slab,
  λ k e. rw (notify_everyone-get slab k, e) refl,
  λ k req e.
      (notify_request req, rw (notify_everyone-get slab k, e) refl, notify_request-IsNotified req),
)

-- The tasks that wait for a request of the slab, in the order of its slots.
abbrev pub wakers : Slab → List Waker
wakers [] = []
wakers (none ∷ slots) = wakers slots
wakers (some req ∷ slots) = wake req.waker ++ wakers slots

notify_everyone-wakers : (slab : Slab) → (notify_everyone slab).1 ≡ wakers slab
unfolding notify_everyone
notify_everyone-wakers [] = refl
notify_everyone-wakers (none ∷ slots) = notify_everyone-wakers slots
notify_everyone-wakers (some mpxs ∷ slots) =
    ap (◌++◌ (wake mpxs.waker)) (notify_everyone-wakers slots)

notify_request-twice : (req : Request) → notify_request (notify_request req) ≡ notify_request req
unfolding notify_request
notify_request-twice req = elim (Bool-cases req.aborted) [
  | inl a ↦ rw (a) refl
  | inr n ↦ rw (n) refl
]

notify_request-waker : (req : Request) → (notify_request req).waker ≡ none
unfolding notify_request
notify_request-waker req = ground arith

-- The slab after `notify_everyone`, slot by slot.
pub notify_everyone-nil : (notify_everyone []).0 ≡ []
unfolding notify_everyone
notify_everyone-nil = refl

pub notify_everyone-none :
    (slots : Slab) → (notify_everyone (none ∷ slots)).0 ≡ none ∷ (notify_everyone slots).0
unfolding notify_everyone
notify_everyone-none slots = refl

pub notify_everyone-some :
    (req : Request) (slots : Slab)
    → (notify_everyone (some req ∷ slots)).0 ≡ some (notify_request req) ∷ (notify_everyone slots).0
unfolding notify_everyone
notify_everyone-some req slots = refl

-- Who was told is not told again.
pub notify_everyone-twice :
    (slab : Slab) → notify_everyone (notify_everyone slab).0 ≡ ((notify_everyone slab).0, [])
unfolding notify_everyone
notify_everyone-twice [] = refl
notify_everyone-twice (none ∷ slots) = rw (notify_everyone-twice slots) refl
notify_everyone-twice (some mpxs ∷ slots) =
    rw (notify_everyone-twice slots, notify_request-twice mpxs, notify_request-waker mpxs) refl

-- The connection was given up: nothing is consumed, every request is told, every task is woken.
pub record IsGivenUp (before : Slab) (result : PollResp) (p : Polled) : Type 0 where
  pub is_result : p.result ≡ result
  pub nothing_consumed : p.consumed ≡ 0
  pub told : p.inner.running_requests ≡ (notify_everyone before).0
  pub notified : AllNotified before p.inner.running_requests
  pub all_woken : p.woken ≡ wakers before

give_up-IsGivenUp :
    (result : PollResp) (slab : Slab) (parser : RecordReader)
    → IsGivenUp slab result (give_up result slab parser)
unfolding give_up
give_up-IsGivenUp result slab parser = record {
  is_result = refl;
  nothing_consumed = refl;
  told = refl;
  notified = notify_everyone-AllNotified slab;
  all_woken = notify_everyone-wakers slab;
}

-- The socket is closed, or fails.
pub data Lost : FillBuf → PollResp → Type 0 where
  closed : Lost (fill_ok []) resp_closed
  failed : {e : ErrorKind} → Lost (fill_err e) (resp_err e)

-- When the socket is closed or fails, `poll_resp` says so and consumes nothing. Every request is
-- kept with its data, is ended unless it is aborted, in which case it is as much at its end as
-- before, and has no waker, and the tasks that waited are woken, in the order of the slots.
pub poll_resp-Lost :
    (fill : FillBuf) (result : PollResp) (c : InnerConnection)
    → Lost fill result
    → (p : Polled) × (poll_resp fill c ≡ some (ok p)) × IsGivenUp c.running_requests result p
unfolding poll_resp
poll_resp-Lost _ _ c closed =
    (_, refl, give_up-IsGivenUp resp_closed c.running_requests c.fcgi_parser)
poll_resp-Lost _ _ c (failed {e = e}) =
    (_, refl, give_up-IsGivenUp (resp_err e) c.running_requests c.fcgi_parser)

after_read_nothing :
    (n : ℕ) (d : Distributed)
    → n ≡ length d.left
    → d.woken ≡ []
    → after_read n d ≡ give_up resp_closed d.running_requests d.fcgi_parser
unfolding after_read give_up
after_read_nothing n d e w = rw (e, w, same_length) refl
  where
    same_length : length d.left - length d.left ≡ 0
    same_length = omega arith

-- A read of one to seven bytes between two records, the front of a header, counts as the end of
-- the connection: `poll_resp` reports it as closed and consumes nothing, every request is ended
-- unless it is aborted, and `CheckAlive` says that the connection is dead.
pub poll_resp_partial_header :
    (d : Bytes) (c : InnerConnection)
    → c.fcgi_parser ≡ record { current = none }
    → 0 < length d
    → length d < 8
    → (p : Polled) × (poll_resp (fill_ok d) c ≡ some (ok p))
      × IsGivenUp c.running_requests resp_closed p
      × (check_alive p.result ≡ alive false)
unfolding poll_resp
poll_resp_partial_header [] c idle some_byte short = absurd (omega arith)
poll_resp_partial_header (b ∷ bs) c idle some_byte short = (
  give_up resp_closed c.running_requests c.fcgi_parser,
  closes,
  give_up-IsGivenUp resp_closed c.running_requests c.fcgi_parser,
  unfold give_up check_alive in refl,
)
  where
    kept : Distributed
    kept = record {
      running_requests = c.running_requests;
      fcgi_parser = record { current = none };
      left = b ∷ bs;
      woken = [];
    }

    closes :
        poll_resp (fill_ok (b ∷ bs)) c
        ≡ some (ok (give_up resp_closed c.running_requests c.fcgi_parser))
    closes =
        rw (poll_resp, idle, parse_and_distribute_short (b ∷ bs) c.running_requests short)
          (ap (λ p. some (ok p)) (after_read_nothing (length (b ∷ bs)) kept refl refl))
