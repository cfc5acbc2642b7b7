-- ===== src/Client/Forward.antt =====
-- client/connection.rs: `forward`, from the moment it has a permit and the lock until the request is
-- sent.
pub mod Sent
pub mod Opening
pub mod Slot
use async_fcgi.Base.{ℕ, zero, suc, ◌+◌, ◌≡◌, ◌≢◌, ◌<◌, List, [], ◌∷◌, ◌++◌, Option, none, some}
use async_fcgi.Base.{true, false, length}
use async_fcgi.Base.Result.{Res, ok, panic}
use async_fcgi.Bytes.{Bytes, as_u16}
use async_fcgi.BufVec
use async_fcgi.Fastcgi.Types.{RecordType}
use async_fcgi.Fastcgi.RecordReader
use async_fcgi.Codec.Io.{Io, Outcome, M, ◌>>=◌}
use async_fcgi.Codec.Writer.{flush_data_chunk}
use async_fcgi.Client.Requests.{Request, Slab, Waker, get, put}
use async_fcgi.Client.Connection.{
  InnerConnection, FillBuf, Polled, ErrorKind, Alive, alive, alive_err, poll_resp, check_alive,
  notify_everyone,
}
use async_fcgi.Client.Headers.{HeaderMap}
use async_fcgi.Client.Params.{HttpRequest, Strategies, put_head}
use async_fcgi.Client.Send.{send_body}

-- `meta` of `forward`.
abbrev pub new_request : Request
new_request = record { buf = BufVec.new; waker = none; ended = false; aborted = false }

-- What `insert` of the crate `slab` documents: a vacant slot is taken, and if there is none, a new
-- one is made behind the others. The key says which.
pub data Inserted (slab : Slab) (req : Request) : ℕ → Slab → Type 0 where
  reused :
      (k : ℕ) → k < length slab → get slab k ≡ none → Inserted slab req k (put slab k (some req))
  pushed :
      ((k : ℕ) → k < length slab → get slab k ≢ none)
      → Inserted slab req (length slab) (slab ++ (some req ∷ []))

-- `insert`, with what it documents.
pub record SlabCrate : Type 0 where
  pub insert : Slab → Request → ℕ × Slab
  pub insert-Inserted :
      (slab : Slab) (req : Request) → Inserted slab req (insert slab req).0 (insert slab req).1

-- The request id of a key: `(key + 1) as u16`.
abbrev pub rid_of : ℕ → ℕ
rid_of key = as_u16 (key + 1)

-- The connection after the check, or the error with which `forward` ends, and the tasks that were
-- woken. `none` is the error of `Stream::connect`.
pub data Opened : Type 0 where
  opened : InnerConnection → Io → List Waker → Opened
  not_opened : Option ErrorKind → InnerConnection → Io → List Waker → Opened

-- The old connection is shut down, which `forward` does whatever comes of it. `new` is what
-- `Stream::connect` gives, if it does.
reconnect : Option Io → Polled → Io → Opened
reconnect none p io =
    let (slab, w) = notify_everyone p.inner.running_requests in
    not_opened none (record (p.inner) { running_requests = slab }) io (p.woken ++ w)
reconnect (some new) p io =
    let (slab, w) = notify_everyone p.inner.running_requests in
    opened (record { running_requests = slab; fcgi_parser = RecordReader.new }) new (p.woken ++ w)

on_alive : Option Io → Polled → Io → Alive → Opened
unfolding reconnect
on_alive new p io (alive true) = opened p.inner io p.woken
on_alive new p io (alive false) = reconnect new p io
on_alive new p io (alive_err e) = not_opened (some e) p.inner io p.woken

pub open_connection : Option Io → Polled → Io → Opened
unfolding on_alive
open_connection new p io = on_alive new p io (check_alive p.result)

-- What `forward` leaves when it ends with an error before the request has a slot, and when the
-- request was sent, well or not.
pub data Forwarded : Type 0 where
  refused : Option ErrorKind → InnerConnection → Io → List Waker → Forwarded
  sent : ℕ → Outcome (Unit {0}) → InnerConnection → Io → List Waker → Forwarded

module _ (blank : Bytes) (H : HeaderMap) (s : Strategies) where
  -- The end of the parameters is behind; `len` says whether there is a body.
  unfoldable pub send_rest : ℕ → HttpRequest H → Option ℕ → M (Unit {0})
  send_rest rid req none = flush_data_chunk [] rid RecordType.std_in
  send_rest rid req (some len) = send_body blank rid len req.chunks

  unfoldable pub send_request : ℕ → List (Bytes × Bytes) → HttpRequest H → M (Unit {0})
  unfolding send_rest
  send_request rid dyn_headers req = do
    len ← put_head blank H s rid dyn_headers req
    send_rest rid req len

module _ (blank : Bytes) (H : HeaderMap) (s : Strategies) (slab_crate : SlabCrate)
    (dyn_headers : List (Bytes × Bytes)) (req : HttpRequest H) where
  start_request : InnerConnection → Io → List Waker → Forwarded
  start_request c io woken =
      let (key, slab) = slab_crate.insert c.running_requests new_request in
      let (o, io') = send_request blank H s (rid_of key) dyn_headers req io in
      sent (rid_of key) o (record c { running_requests = slab }) io' woken

  on_opened : Opened → Forwarded
  unfolding start_request
  on_opened (not_opened e c io woken) = refused e c io woken
  on_opened (opened c io woken) = start_request c io woken

  on_polled : Option Io → Io → Option (Res Polled) → Option (Res Forwarded)
  unfolding on_opened
  on_polled new io none = none
  on_polled new io (some panic) = some panic
  on_polled new io (some (ok p)) = some (ok (on_opened (open_connection new p io)))

  pub forward : FillBuf → Option Io → InnerConnection → Io → Option (Res Forwarded)
  unfolding on_polled
  forward fill new c io = on_polled new io (poll_resp fill c)
