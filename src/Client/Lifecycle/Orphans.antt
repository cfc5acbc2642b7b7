-- ===== src/Client/Lifecycle/Orphans.antt =====
-- client/connection.rs: a request that `forward` gave up keeps its slot.
use async_fcgi.Base.{ℕ, ◌≡◌, ◌≢◌, refl, ap, ◌∙◌, true, false, some, Option}
use async_fcgi.Base.{suc, ◌<◌, List, ◌∷◌, ◌++◌, All, length}
use async_fcgi.Base.Result.{ok}
use async_fcgi.Bytes.{Bytes}
use async_fcgi.Fastcgi.Types.{RecordType}
use async_fcgi.Fastcgi.Header.{header_len}
use async_fcgi.Fastcgi.Header
use async_fcgi.Codec.Io.{Io, Outcome, invalid_data}
use async_fcgi.Codec.Io.Emits.{Ran}
use async_fcgi.Codec.Writer.Streams.{Records}
use async_fcgi.Fastcgi.NvBody.Drain.{encodings}
use async_fcgi.Codec.Writer.Single.{begin_bytes}
use async_fcgi.Codec.Writer.Pairs.{IsEncodable}
use async_fcgi.Client.Headers.{HeaderMap, skip, contains_key, header_value, refuses}
use async_fcgi.Client.Params.{HttpRequest, Strategies}
use async_fcgi.Client.Params.Laws.{IsAccepted, fixed_params, header_pairs}
use async_fcgi.Client.Forward.{SlabCrate, forward, sent, send_request}
use async_fcgi.Client.Forward.Sent.{send_request_multiline}
use async_fcgi.Client.Forward.Opening.{forward-starts}
use async_fcgi.Client.Requests.{Slab}
use async_fcgi.Client.Requests.Changes.{IsRunning, distribute-IsRunning, Changes-IsRunning}
use async_fcgi.Client.Connection.{
  InnerConnection, FillBuf, Polled, alive, poll_resp, check_alive, notify_everyone,
}
use async_fcgi.Client.Connection.Laws.{notify_everyone-AllNotified}
use async_fcgi.Client.Body.Changes.{take_frame-Changes, drop_body-Changes}
use async_fcgi.Client.Response.Changes.{give_back-Changes}
use async_fcgi.Client.Forward.{Inserted, new_request}
use async_fcgi.Client.Lifecycle.{Actor, owner, Works, receives, notifies, polls, drops, gives_back}
use async_fcgi.Client.Lifecycle.Inserts.{Inserted-key, Inserted-other}

-- Whatever happens to the slab, but for the owner of a body with the key `k`.
pub data Others (k : ℕ) (slab : Slab) : Slab → Type 0 where
  here : Others k slab slab
  worked :
      {slab1 slab2 : Slab} (actor : Actor)
      → Others k slab slab1
      → actor ≢ owner k
      → Works actor slab1 slab2
      → Others k slab slab2
  inserted :
      {slab1 slab2 : Slab} (key : ℕ)
      → Others k slab slab1
      → Inserted slab1 new_request key slab2
      → Others k slab slab2

notify_everyone-IsRunning :
    (slab : Slab) (k : ℕ) → IsRunning slab k → IsRunning (notify_everyone slab).0 k
notify_everyone-IsRunning slab k run =
    let (req', g, n) = (notify_everyone-AllNotified slab).2 k run.request run.in_slot in
    record { request = req'; in_slot = g; not_aborted = n.same_aborted ∙ run.not_aborted }

Works-IsRunning :
    {actor : Actor} {slab slab' : Slab} (k : ℕ)
    → actor ≢ owner k
    → Works actor slab slab'
    → IsRunning slab k
    → IsRunning slab' k
Works-IsRunning k ne (receives slab r) run = distribute-IsRunning slab r k run
Works-IsRunning k ne (notifies slab) run = notify_everyone-IsRunning slab k run
Works-IsRunning k ne (polls slab task body f e) run =
    Changes-IsRunning k (λ s. ne (ap owner s)) (take_frame-Changes task body slab f e) run
Works-IsRunning k ne (drops slab locked body) run =
    Changes-IsRunning k (λ s. ne (ap owner s)) (drop_body-Changes locked body slab) run
Works-IsRunning k ne (gives_back slab rid bodydata slab' e) run =
    Changes-IsRunning k (λ s. ne (ap owner s)) (give_back-Changes slab rid bodydata slab' e) run

pub Others-IsRunning :
    {k : ℕ} {slab slab' : Slab} → Others k slab slab' → IsRunning slab k → IsRunning slab' k
Others-IsRunning here run = run
Others-IsRunning {k} (worked actor o ne w) run = Works-IsRunning k ne w (Others-IsRunning o run)
Others-IsRunning {k} (inserted key o ins) run =
    let before = Others-IsRunning o run in
    record {
      request = before.request;
      in_slot = Inserted-other ins k before.request before.in_slot;
      not_aborted = before.not_aborted;
    }

-- The slot of a new request.
pub Inserted-IsRunning :
    {slab : Slab} {key : ℕ} {slab' : Slab}
    → Inserted slab new_request key slab'
    → IsRunning slab' key
Inserted-IsRunning ins = record {
  request = new_request;
  in_slot = (Inserted-key ins).2;
  not_aborted = refl;
}

module _ (blank : Bytes) (H : HeaderMap) (s : Strategies) (slab_crate : SlabCrate)
    (dyn_headers : List (Bytes × Bytes)) (req : HttpRequest H) where
  -- Let eight bytes be the place of a header, and the parameters in front of the first header
  -- with a refused value have names and values of at most 0x7fffffff bytes. On a connection that
  -- the check finds alive, with fewer than 65535 slots, `forward` writes the beginning of the
  -- request, records of PARAMS that hold a front of the encodings of these parameters, and the
  -- record that aborts it, and ends with the error for invalid data; if the socket fails or
  -- blocks, a front of these bytes. But its request stays in its slot and is not marked as
  -- aborted, whatever records arrive and whatever other requests do, as long as no body with its
  -- number is polled or dropped.
  pub forward_multiline-Others :
      (before after : List Bytes) (key : Bytes) (fill : FillBuf) (new : Option Io)
      (c : InnerConnection) (io : Io) (p : Polled)
      → length blank ≡ header_len
      → H.keys req.headers ≡ before ++ (key ∷ after)
      → IsAccepted H s req.headers before
      → contains_key skip key ≡ false
      → refuses s.header_nl (header_value H s.header_mul req.headers key) ≡ true
      → All IsEncodable (fixed_params H s dyn_headers req ++ header_pairs H s req.headers before)
      → poll_resp fill c ≡ some (ok p)
      → check_alive p.result ≡ alive true
      → length p.inner.running_requests < 65535
      → (k : ℕ) × (slab : Slab) × (o : Outcome (Unit {0})) × (io' : Io) × (front back
          params : Bytes)
        × (forward blank H s slab_crate dyn_headers req fill new c io
            ≡ some (ok (sent (suc k) o (record (p.inner) { running_requests = slab }) io' p.woken)))
        × Ran io
            (begin_bytes (suc k)
              ++ (params ++ Header.bytes (Header.new RecordType.abort_request (suc k) 0)))
            invalid_data
            (o, io')
        × Records (suc k) RecordType.params front params
        × (encodings (fixed_params H s dyn_headers req ++ header_pairs H s req.headers before)
            ≡ front ++ back)
        × ((slab' : Slab) → Others k slab slab' → IsRunning slab' k)
  forward_multiline-Others before after key fill new c io p eight split a kept refused h polled live
        few =
      let ins = slab_crate.insert-Inserted p.inner.running_requests new_request in
      let k : ℕ = (slab_crate.insert p.inner.running_requests new_request).0 in
      let (front, back, params, e, r, same) =
        send_request_multiline blank H s (suc k) dyn_headers req before after key eight split a kept
          refused h in
      (
        k,
        (slab_crate.insert p.inner.running_requests new_request).1,
        (send_request blank H s (suc k) dyn_headers req io).0,
        (send_request blank H s (suc k) dyn_headers req io).1,
        front,
        back,
        params,
        forward-starts blank H s dyn_headers req slab_crate fill new c io p polled live few,
        e io,
        r,
        same,
        λ slab' o. Others-IsRunning o (Inserted-IsRunning ins),
      )
