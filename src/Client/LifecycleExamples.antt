-- ===== src/Client/LifecycleExamples.antt =====
-- client/connection.rs: a connection at which the theorems on its states apply.
use async_fcgi.Base.{ℕ, ◌+◌, ◌<◌, ◌≤◌, ◌≡◌, ◌↔◌, refl, arith, true, false, none, some, [], ◌∷◌}
use async_fcgi.Fastcgi.Types.{RecordType, ProtoStatus}
use async_fcgi.Fastcgi.Header.{version_1}
use async_fcgi.Fastcgi.Record.{Record, Body}
use async_fcgi.BufVec.Laws.{MeetsChunkContract}
use async_fcgi.Client.Requests.{Slab, get, distribute}
use async_fcgi.Client.Requests.Changes.{IsRunning}
use async_fcgi.Client.Body.{FcgiBody, drop_body}
use async_fcgi.Client.Connection.{notify_everyone}
use async_fcgi.Client.Forward.{new_request, Inserted, pushed, rid_of}
use async_fcgi.Client.Lifecycle.{
  connection, notifies, receives, connected, is_ready, occupied, acquires, inserts, Reach, here,
  next,
}
use async_fcgi.Client.Lifecycle.Dropped.{Unended, IsDropped, drop_body-Unended, drop_body_contended}
use async_fcgi.Client.Lifecycle.Capacity.{IsBalanced, Reach-IsBalanced, Reach-rid_of}
use async_fcgi.Client.Lifecycle.Orphans.{Others}
use async_fcgi.Client.Lifecycle.Kept.{forward-Others}
use async_fcgi.Codec.Io.{Io, fails}
use async_fcgi.Client.Connection.{fill_pending}
use async_fcgi.Client.Forward.{send_request}
use async_fcgi.Client.Forward.Opening.{forward-starts}
use async_fcgi.Client.ForwardExamples.{
  table, blank, strategies, rows, post, dyn_headers, slab_crate, insert_first,
  connection as first_connection, polled, connection-polled, connection-alive,
}
use async_fcgi.Client.Lifecycle.Proper.{Reach-MeetsChunkContract}

-- One of two permits is taken, and its request gets the first slot.
abbrev one_slab : Slab
one_slab = some new_request ∷ []

one-Inserted : Inserted [] new_request 0 one_slab
one-Inserted = pushed (λ k h. absurd (omega arith))

one-Reach : Reach (connected 2) (record { permits = 1; held = 0; slab = one_slab })
one-Reach = next (next here (acquires 1 0 [])) (inserts 1 0 [] one_slab 0 one-Inserted)

Reach-IsBalanced_example :
    IsBalanced 2 (record { permits = 1; held = 0; slab = one_slab })
    × ((is_ready (record { permits = 1; held = 0; slab = one_slab }) ≡ true)
        ↔ (0 + occupied one_slab < 2))
Reach-IsBalanced_example =
    Reach-IsBalanced 2 (record { permits = 1; held = 0; slab = one_slab }) one-Reach

Reach-rid_of_example : (rid_of 0 ≡ 1) × (rid_of 0 ≤ 2) × (get [] 0 ≡ none)
Reach-rid_of_example =
    Reach-rid_of 2 1 0 0 [] one_slab (omega arith) (next here (acquires 1 0 [])) one-Inserted

Reach-MeetsChunkContract_example : MeetsChunkContract new_request.buf
Reach-MeetsChunkContract_example =
    Reach-MeetsChunkContract 2 (record { permits = 1; held = 0; slab = one_slab }) 0 new_request
      one-Reach (unfold get in refl)

-- The body of a request without parts yet.
abbrev one_body : FcgiBody
one_body = record { rid = 0; done = false; was_returned = false }

abbrev dropped_slab : Slab
dropped_slab = drop_body true one_body one_slab

drop_body-Unended_example : IsDropped new_request.buf 0 (notify_everyone dropped_slab).0
drop_body-Unended_example =
    drop_body-Unended one_body one_slab (notify_everyone dropped_slab).0 new_request refl
      (unfold get in refl)
      (Unended.worked connection Unended.here (λ e. cc) (notifies dropped_slab) tt)

-- The end of the first request.
abbrev end_record : Record
end_record = record {
  header = record {
    version = version_1;
    rtype = RecordType.end_request;
    request_id = 1;
    content_length = 8;
    padding_length = 0;
  };
  body = Body.end_request (record { app_status = 0; protocol_status = ProtoStatus.complete });
}

drop_body_contended_example :
    IsRunning (distribute (drop_body false one_body one_slab) end_record).0 0
drop_body_contended_example =
    drop_body_contended one_body one_slab
      (distribute (drop_body false one_body one_slab) end_record).0 new_request refl
      (unfold get in refl) refl
      (Others.worked connection Others.here (λ e. cc)
        (receives (drop_body false one_body one_slab) end_record))

-- A socket that fails at the first write.
abbrev failing : Io
failing = record { written = []; plan = fails ∷ [] }

forward-Others_example :
    (k : ℕ) × (1 ≡ rid_of k)
    × ((slab' : Slab)
        → Others k (slab_crate.insert polled.inner.running_requests new_request).1 slab'
        → IsRunning slab' k)
forward-Others_example =
    forward-Others blank table strategies slab_crate dyn_headers (post rows) fill_pending none
      first_connection
      (record (polled.inner) {
        running_requests = (slab_crate.insert polled.inner.running_requests new_request).1;
      })
      failing (send_request blank table strategies 1 dyn_headers (post rows) failing).1 1
      (send_request blank table strategies 1 dyn_headers (post rows) failing).0 []
      (unfold insert_first in
        (forward-starts blank table strategies dyn_headers (post rows) slab_crate fill_pending none
          first_connection failing polled connection-polled connection-alive (omega arith)))
