-- ===== src/Client/Turns.antt =====
-- client/connection.rs: requests that are sent at the same time. The mutex around a connection is held
-- for one turn: for all of the head of a request, for one chunk of a body, or for its end.
pub mod Alone
pub mod Refused
pub mod Items
pub mod Heads
pub mod Written
pub mod Served
use async_fcgi.Base.{ℕ, ◌==◌, List, [], ◌∷◌, Option, none, some, length, ltb, if◌then◌else◌}
use async_fcgi.Bytes.{Bytes}
use async_fcgi.Fastcgi.Types.{RecordType}
use async_fcgi.Codec.Io.{Outcome, done, too_short, invalid_data, M, after, ◌>>=◌, ◌>>◌, return}
use async_fcgi.Codec.Writer.{flush_data_chunk, encode, FcgiType}
use async_fcgi.Client.Headers.{HeaderMap}
use async_fcgi.Client.Params.{HttpRequest, Strategies, put_head}
use async_fcgi.Client.Send.{sub_assign}

-- Where a call of `forward` is that has a slot: `opens` will send the head, `sends` is between two
-- chunks in `send_body`, with what is left of `len`, and `closed` has sent all with this outcome.
pub data Sender (H : HeaderMap) : Type 0 where
  opens : List (Bytes × Bytes) → HttpRequest H → Sender H
  sends : ℕ → List (Option Bytes) → Sender H
  closed : Outcome (Unit {0}) → Sender H

-- Those who send, by the ids of their requests.
abbrev pub Senders : HeaderMap → Type 0
Senders H = ℕ → Sender H

pub update : {H : HeaderMap} → Senders H → ℕ → Sender H → Senders H
update senders rid sender k = if rid == k then sender else senders k

module _ (blank : Bytes) (H : HeaderMap) (s : Strategies) where
  -- Without a body, the end of STDIN belongs to the turn of the head.
  after_head : ℕ → HttpRequest H → Option ℕ → M (Sender H)
  after_head rid req none = do flush_data_chunk [] rid RecordType.std_in; return (closed (done tt))
  after_head rid req (some len) = return (sends len req.chunks)

  -- A header that is refused ends this call of `forward`, and nobody else's.
  after_put : ℕ → HttpRequest H → Outcome (Option ℕ) → M (Sender H)
  unfolding after_head
  after_put rid req invalid_data = return (closed invalid_data)
  after_put rid req o = after o (after_head rid req)

  -- What is sent before the mutex is given back; an error of the socket ends the run of all.
  pub turn : ℕ → Sender H → M (Sender H)
  unfolding after_put
  turn rid (opens dyn_headers req) =
      λ io. let (o, io') = put_head blank H s rid dyn_headers req io in after_put rid req o io'
  turn rid (sends len []) =
      if ltb 0 len
      then (do encode blank (FcgiType.abort_request rid); return (closed too_short))
      else (do flush_data_chunk [] rid RecordType.std_in; return (closed (done tt)))
  turn rid (sends len (none ∷ chunks)) = return (sends len chunks)
  turn rid (sends len (some [] ∷ chunks)) = return (sends len chunks)
  turn rid (sends len (some (b ∷ bs) ∷ chunks)) = do
    flush_data_chunk (b ∷ bs) rid RecordType.std_in
    return (sends (sub_assign len (length (b ∷ bs))) chunks)
  turn rid (closed o) = return (closed o)

  -- The order in which the mutex is handed on.
  pub take_turns : List ℕ → Senders H → M (Senders H)
  unfolding turn update
  take_turns [] senders = return senders
  take_turns (rid ∷ schedule) senders = do
    sender ← turn rid (senders rid)
    take_turns schedule (update senders rid sender)
