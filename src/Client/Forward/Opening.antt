-- ===== src/Client/Forward/Opening.antt =====
-- client/connection.rs: `forward` on a connection that is alive, that was lost, and that cannot be had.
use async_fcgi.Base.{ℕ, suc, ◌+◌, ◌<◌, ◌≡◌, refl, arith, true, false}
use async_fcgi.Base.{append-nil, List, [], ◌++◌, Option, none, some, length, All}
use async_fcgi.Base.Result.{ok}
use async_fcgi.Bytes.{Bytes}
use async_fcgi.Fastcgi.Types.{RecordType}
use async_fcgi.Fastcgi.Header.{header_len}
use async_fcgi.Fastcgi.NvBody.Drain.{encodings}
use async_fcgi.Fastcgi.RecordReader
use async_fcgi.Codec.Io.{Io, Outcome, done}
use async_fcgi.Codec.Io.Emits.{Ran}
use async_fcgi.Codec.Writer.Streams.{Stream}
use async_fcgi.Codec.Writer.Single.{begin_bytes}
use async_fcgi.Codec.Writer.Pairs.{IsEncodable}
use async_fcgi.Client.Requests.{Request, Slab, Waker}
use async_fcgi.Client.Connection.{
  InnerConnection, FillBuf, fill_ok, fill_err, PollResp, resp_closed, resp_err, Polled, ErrorKind,
  other_error, not_connected, alive, poll_resp, check_alive, notify_everyone,
}
use async_fcgi.Client.Connection.Laws.{
  Lost, closed, failed, poll_resp-Lost, AllNotified, wakers, notify_everyone-AllNotified,
  notify_everyone-twice, length-notify_everyone,
}
use async_fcgi.Client.Headers.{HeaderMap}
use async_fcgi.Client.Params.{HttpRequest, Strategies, announced}
use async_fcgi.Client.Params.Laws.{IsAccepted, cgi_params}
use async_fcgi.Client.Forward.{
  new_request, Inserted, reused, pushed, SlabCrate, rid_of, open_connection, reconnect, Forwarded,
  refused, sent, send_request, start_request, on_opened, on_polled, on_alive, forward,
}
use async_fcgi.Client.Forward.Sent.{IsAnnounced, sent_bytes, send_request-Streams}

-- A key is at most the number of slots, so its request id does not wrap around.
Inserted-le :
    {slab : Slab} {req : Request} {k : ℕ} {slab' : Slab}
    → Inserted slab req k slab'
    → k < length slab + 1
Inserted-le (reused k h e) = omega arith
Inserted-le (pushed h) = omega arith

rid_of-suc : (k n : ℕ) → k < n + 1 → n < 65535 → rid_of k ≡ suc k
rid_of-suc k n h small = omega arith

-- On a connection that is alive, the request gets a slot and is sent.
pub forward-starts :
    (blank : Bytes) (H : HeaderMap) (s : Strategies) (dyn_headers : List (Bytes × Bytes))
    (req : HttpRequest H) (slab_crate : SlabCrate) (fill : FillBuf) (new : Option Io)
    (c : InnerConnection) (io : Io) (p : Polled)
    → poll_resp fill c ≡ some (ok p)
    → check_alive p.result ≡ alive true
    → length p.inner.running_requests < 65535
    → let (k, slab) = slab_crate.insert p.inner.running_requests new_request in
      let (o, io') = send_request blank H s (suc k) dyn_headers req io in
      forward blank H s slab_crate dyn_headers req fill new c io
      ≡ some (ok (sent (suc k) o (record (p.inner) { running_requests = slab }) io' p.woken))
unfolding forward on_polled on_opened open_connection on_alive start_request
forward-starts blank H s dyn_headers req slab_crate fill new c io p polled live few =
    let ins = slab_crate.insert-Inserted p.inner.running_requests new_request in
    rw (polled, live, rid_of-suc _ _ (Inserted-le ins) few) refl

-- The socket is lost in a way that makes `forward` connect again.
pub data Disconnected : FillBuf → PollResp → Type 0 where
  at_end : Disconnected (fill_ok []) resp_closed
  no_peer : Disconnected (fill_err not_connected) (resp_err not_connected)

Disconnected-Lost :
    (fill : FillBuf) (result : PollResp)
    → Disconnected fill result
    → Lost fill result × (check_alive result ≡ alive false)
unfolding check_alive
Disconnected-Lost _ _ at_end = (closed, refl)
Disconnected-Lost _ _ no_peer = (failed, refl)

module _ (blank : Bytes) (H : HeaderMap) (s : Strategies) (dyn_headers : List (Bytes × Bytes))
    (req : HttpRequest H) where
  -- The request was sent on the connection `c` whose socket was `io`: it has a new slot, with no data,
  -- and its id is the number of the slot, counted from one. Behind what the socket had, there are the
  -- record of its beginning, the stream of its parameters and the one of its body, or a front of them
  -- if the socket fails or blocks.
  pub record IsSent (c : InnerConnection) (io : Io) (woken : List Waker) (f : Forwarded)
      : Type 0 where
    pub key : ℕ
    pub slab : Slab
    pub outcome : Outcome (Unit {0})
    pub io' : Io
    pub params : Bytes
    pub stdin : Bytes
    pub is_forwarded : f ≡ sent (suc key) outcome (record c { running_requests = slab }) io' woken
    pub inserted : Inserted c.running_requests new_request key slab
    pub writes : Ran io ((begin_bytes (suc key) ++ params) ++ stdin) (done tt) (outcome, io')
    pub params_stream :
        Stream (suc key) RecordType.params (encodings (cgi_params H s dyn_headers req)) params
    pub stdin_stream :
        Stream
          (suc key)
          RecordType.std_in
          (sent_bytes (announced req.size_upper req.size_lower) req.chunks)
          stdin

  module _ (slab_crate : SlabCrate) (eight : length blank ≡ header_len)
      (accepted : IsAccepted H s req.headers (H.keys req.headers))
      (encodable : All IsEncodable (cgi_params H s dyn_headers req))
      (len : IsAnnounced (announced req.size_upper req.size_lower) req.chunks) where
    start_request-IsSent :
        (c : InnerConnection) (io : Io) (woken : List Waker)
        → length c.running_requests < 65535
        → IsSent c io woken (start_request blank H s slab_crate dyn_headers req c io woken)
    unfolding start_request
    start_request-IsSent c io woken few =
        let ins = slab_crate.insert-Inserted c.running_requests new_request in
        let key : ℕ = (slab_crate.insert c.running_requests new_request).0 in
        let (params, stdin, e, s1, s2) =
          send_request-Streams blank H s (suc key) dyn_headers req eight accepted encodable len in
        record {
          key = key;
          slab = (slab_crate.insert c.running_requests new_request).1;
          outcome = (send_request blank H s (suc key) dyn_headers req io).0;
          io' = (send_request blank H s (suc key) dyn_headers req io).1;
          params = params;
          stdin = stdin;
          is_forwarded = rw (rid_of-suc key _ (Inserted-le ins) few) refl;
          inserted = ins;
          writes = e io;
          params_stream = s1;
          stdin_stream = s2;
        }

    -- Let eight bytes be the place of a header, no forwarded header have a refused value, every
    -- name and value of a parameter have at most 0x7fffffff bytes, and the body have the length
    -- that is announced, if one is. On a connection that the check finds alive, with fewer than
    -- 65535 slots, `forward` gives the request a vacant or a new slot, whose number, counted from
    -- one, is its id, and writes the record that begins it, one stream of PARAMS with the
    -- encodings of exactly its parameters, in order, and one stream of STDIN with its body,
    -- without bytes if no length is announced. If the socket fails or blocks, a front of just
    -- these bytes is written and the call does not end well.
    pub forward-IsSent :
        (fill : FillBuf) (new : Option Io) (c : InnerConnection) (io : Io) (p : Polled)
        → poll_resp fill c ≡ some (ok p)
        → check_alive p.result ≡ alive true
        → length p.inner.running_requests < 65535
        → (f : Forwarded) × (forward blank H s slab_crate dyn_headers req fill new c io
            ≡ some (ok f))
          × IsSent p.inner io p.woken f
    unfolding forward on_polled on_opened open_connection on_alive
    forward-IsSent fill new c io p polled live few = (
      start_request blank H s slab_crate dyn_headers req p.inner io p.woken,
      rw (polled, live) refl,
      start_request-IsSent p.inner io p.woken few,
    )

    -- Let eight bytes be the place of a header, no forwarded header have a refused value, every
    -- name and value of a parameter have at most 0x7fffffff bytes, and the body have the length
    -- that is announced, if one is. If the old connection, with fewer than 65535 slots, is at its
    -- end or has no peer, and a new one can be had, `forward` tells every request of the old one
    -- that it is over and wakes the tasks that wait, each once, and then sends the request on the
    -- new socket, with a new parser.
    pub forward-reconnects :
        (fill : FillBuf) (result : PollResp) (new : Io) (c : InnerConnection) (io : Io)
        → Disconnected fill result
        → length c.running_requests < 65535
        → (f : Forwarded) × (slab : Slab) × (forward blank H s slab_crate dyn_headers req fill
              (some new)
              c
              io
            ≡ some (ok f))
          × AllNotified c.running_requests slab
          × IsSent
              (record { running_requests = slab; fcgi_parser = RecordReader.new })
              new
              (wakers c.running_requests)
              f
    unfolding forward on_polled on_opened open_connection on_alive reconnect
    forward-reconnects fill result new c io lost few =
        let (is_lost, dead) = Disconnected-Lost fill result lost in
        let (p, polled, g) = poll_resp-Lost fill result c is_lost in
        let slab : Slab = (notify_everyone c.running_requests).0 in
        (
          start_request blank H s slab_crate dyn_headers req
              (record { running_requests = slab; fcgi_parser = RecordReader.new }) new
              (wakers c.running_requests),
          slab,
          rw
              (
                polled,
                g.is_result,
                dead,
                g.told,
                notify_everyone-twice c.running_requests,
                g.all_woken,
                append-nil (wakers c.running_requests),
              )
              refl,
          notify_everyone-AllNotified c.running_requests,
          start_request-IsSent _ new (wakers c.running_requests)
              (omega (arith, length-notify_everyone c.running_requests)),
        )

-- No connection is to be had: an error other than a missing peer, or nobody at the other end.
pub data NoConnection : FillBuf → Option Io → Option ErrorKind → Type 0 where
  other : {new : Option Io} → NoConnection (fill_err other_error) new (some other_error)
  gone :
      {fill : FillBuf} {result : PollResp} → Disconnected fill result → NoConnection fill none none

-- If the socket fails otherwise than for want of a peer, or the old connection is gone and no new
-- one can be had, `forward` ends with that error: it writes nothing and inserts nothing, every
-- request of the connection is told that it is over, and the tasks that wait are woken.
pub forward_refused :
    (blank : Bytes) (H : HeaderMap) (s : Strategies) (slab_crate : SlabCrate)
    (dyn_headers : List (Bytes × Bytes)) (req : HttpRequest H) (fill : FillBuf) (new : Option Io)
    (e : Option ErrorKind) (c : InnerConnection) (io : Io)
    → NoConnection fill new e
    → (c' : InnerConnection) × (forward blank H s slab_crate dyn_headers req fill new c io
        ≡ some (ok (refused e c' io (wakers c.running_requests))))
      × AllNotified c.running_requests c'.running_requests
unfolding forward on_polled on_opened open_connection on_alive check_alive
forward_refused blank H s slab_crate dyn_headers req _ new _ c io other =
    let (p, polled, g) = poll_resp-Lost (fill_err other_error) (resp_err other_error) c failed in
    (p.inner, rw (polled, g.is_result, g.all_woken) refl, g.notified)
forward_refused blank H s slab_crate dyn_headers req fill _ _ c io (gone {result} lost) =
    let (is_lost, dead) = Disconnected-Lost fill result lost in
    let (p, polled, g) = poll_resp-Lost fill result c is_lost in
    (
      record (p.inner) { running_requests = (notify_everyone c.running_requests).0 },
      rw
          (
            polled,
            g.is_result,
            dead,
            reconnect,
            g.told,
            notify_everyone-twice c.running_requests,
            g.all_woken,
            append-nil (wakers c.running_requests),
          )
          refl,
      notify_everyone-AllNotified c.running_requests,
    )
