-- ===== src/Client/Connection.antt =====
-- client/connection.rs: `InnerConnection`, driven by what is read from the socket.
pub mod Laws
use async_fcgi.Base.{ℕ, ◌-◌, Bool, true, false, List, [], ◌∷◌, ◌++◌, Option, none, some}
use async_fcgi.Base.{length, ◌==◌, if◌then◌else◌}
use async_fcgi.Base.Result.{Res, ok, panic}
use async_fcgi.Bytes.{Bytes}
use async_fcgi.Fastcgi.RecordReader.{RecordReader}
use async_fcgi.Client.Requests.{Request, Slab, Waker, wake, Distributed, parse_and_distribute}

-- `InnerConnection`, but for the socket: what it gives to a read is an argument.
pub record InnerConnection : Type 0 where
  pub running_requests : Slab
  pub fcgi_parser : RecordReader

-- The one kind of I/O error that the code tells from the others.
pub data ErrorKind : Type 0 where
  not_connected other_error : ErrorKind

-- What `poll_fill_buf` of the socket's buffer returns.
pub data FillBuf : Type 0 where
  fill_pending : FillBuf
  fill_ok : Bytes → FillBuf
  fill_err : ErrorKind → FillBuf

-- `Poll<Option<Result<(), IoError>>>`
pub data PollResp : Type 0 where
  resp_pending resp_closed resp_ok : PollResp
  resp_err : ErrorKind → PollResp

pub record Polled : Type 0 where
  pub result : PollResp
  pub inner : InnerConnection
  pub consumed : ℕ
  pub woken : List Waker

pub notify_request : Request → Request
notify_request mpxs =
    let m = record mpxs { waker = none } in if m.aborted then m else record m { ended = true }

-- `InnerConnection::notify_everyone` on the slab: the slab, and the tasks that are woken.
pub notify_everyone : Slab → Slab × List Waker
unfolding notify_request wake
notify_everyone [] = ([], [])
notify_everyone (none ∷ slots) = let (slots', w) = notify_everyone slots in (none ∷ slots', w)
notify_everyone (some mpxs ∷ slots) =
    let (slots', w) = notify_everyone slots in
    (some (notify_request mpxs) ∷ slots', wake mpxs.waker ++ w)

-- `poll_resp` where it gives the connection up.
give_up : PollResp → Slab → RecordReader → Polled
unfolding notify_everyone
give_up result slab parser =
    let (slab', w) = notify_everyone slab in
    record {
      result = result;
      inner = record { running_requests = slab'; fcgi_parser = parser };
      consumed = 0;
      woken = w;
    }

-- The end of `poll_resp`: nothing that was read counts as a connection that was closed.
after_read : ℕ → Distributed → Polled
unfolding give_up
after_read available d =
    let read = available - length d.left in
    if read == 0
    then (let p = give_up resp_closed d.running_requests d.fcgi_parser in
        record p { woken = d.woken ++ p.woken })
    else (record {
      result = resp_ok;
      inner = record { running_requests = d.running_requests; fcgi_parser = d.fcgi_parser };
      consumed = read;
      woken = d.woken;
    })

unfoldable pub poll_resp : FillBuf → InnerConnection → Option (Res Polled)
unfolding after_read give_up
poll_resp fill_pending c =
    some (ok (record { result = resp_pending; inner = c; consumed = 0; woken = [] }))
poll_resp (fill_err e) c = some (ok (give_up (resp_err e) c.running_requests c.fcgi_parser))
poll_resp (fill_ok []) c = some (ok (give_up resp_closed c.running_requests c.fcgi_parser))
poll_resp (fill_ok (b ∷ bs)) c =
    elim (parse_and_distribute (b ∷ bs) c.running_requests c.fcgi_parser) [
      | none ↦ none
      | some panic ↦ some panic
      | some (ok d) ↦ some (ok (after_read (length (b ∷ bs)) d))
    ]

-- `CheckAlive::poll`, from what `poll_resp` returned: `inr` is an error.
pub data Alive : Type 0 where
  alive : Bool → Alive
  alive_err : ErrorKind → Alive

unfoldable pub check_alive : PollResp → Alive
check_alive resp_closed = alive false
check_alive (resp_err not_connected) = alive false
check_alive (resp_err other_error) = alive_err other_error
check_alive resp_pending = alive true
check_alive resp_ok = alive true

-- `Connection::close`; the argument is the error of `shutdown`, if there is one.
close : Option ErrorKind → Slab → Option ErrorKind × Slab × List Waker
close (some e) slab = (some e, slab, [])
close none slab = let (slab', w) = notify_everyone slab in (none, slab', w)
