-- ===== src/Client/Turns/Alone.antt =====
-- client/connection.rs: the turns of a request that nobody disturbs.
use async_fcgi.Base.{ℕ, zero, suc, ◌≡◌, refl, ap, sym, ◌∙◌, List, [], ◌∷◌, Option}
use async_fcgi.Base.{none, some, length, ltb, if◌then◌else◌, Bool, true, false}
use std.Path.{fun_ext}
use async_fcgi.Bytes.{Bytes}
use async_fcgi.Codec.Io.{
  Io, Outcome, done, io_failed, blocked, too_short, invalid_data, panicked, stuck, after, M, ◌>>=◌,
  ◌>>◌, return, ends,
}
use async_fcgi.Codec.Io.Bind.{bind_assoc, bind-return}
use async_fcgi.Fastcgi.Types.{RecordType}
use async_fcgi.Codec.Writer.{flush_data_chunk, encode, FcgiType}
use async_fcgi.Client.Headers.{HeaderMap}
use async_fcgi.Client.Params.{HttpRequest, Strategies, put_head}
use async_fcgi.Client.Send.{sub_assign, send_loop, send_body}
use async_fcgi.Client.Forward.{send_rest, send_request}
use async_fcgi.Client.Turns.{Sender, opens, sends, closed, turn, after_head, after_put}

-- How a call that has been given its turns has ended.
abbrev outcome : {H : HeaderMap} → Sender H → Outcome (Unit {0})
outcome (closed o) = o
outcome _ = stuck

module _ (blank : Bytes) (H : HeaderMap) (s : Strategies) (rid : ℕ) where
  pub turns : ℕ → Sender H → M (Sender H)
  turns zero sender = return sender
  turns (suc n) sender = turn blank H s rid sender >>= turns n

  -- So many turns in a row, and the outcome.
  pub alone : ℕ → Sender H → M (Unit {0})
  unfolding turns
  alone n sender = turns n sender >>= λ sender'. ends (outcome sender')

  alone_next :
      (n : ℕ) (sender : Sender H) → alone (suc n) sender ≡ (turn blank H s rid sender >>= alone n)
  unfolding alone turns
  alone_next n sender =
      bind_assoc (turn blank H s rid sender) (turns n) (λ sender'. ends (outcome sender'))

  alone-closed : (n : ℕ) (o : Outcome (Unit {0})) → alone n (closed o) ≡ ends o
  unfolding alone turns turn
  alone-closed zero o = refl
  alone-closed (suc n) o = alone-closed n o

  -- A turn that is one call, and what comes behind it.
  turn_then :
      (n : ℕ) (sender sender' : Sender H) (m : M (Unit {0})) (k : M (Unit {0}))
      → turn blank H s rid sender ≡ (m >> return sender')
      → alone n sender' ≡ k
      → alone (suc n) sender ≡ (m >> k)
  turn_then n sender sender' m k now later =
      alone_next n sender
      ∙ ap (λ t. t >>= alone n) now
      ∙ bind_assoc m (λ _. return sender') (alone n)
      ∙ ap (λ r. m >> r) later

  alone-end :
      (len : ℕ) (b : Bool)
      → ltb 0 len ≡ b
      → alone 1 (sends len []) ≡ (
          if b
          then (encode blank (FcgiType.abort_request rid) >> ends too_short)
          else flush_data_chunk [] rid RecordType.std_in)
  unfolding turn
  alone-end len true e =
      turn_then 0 (sends len []) (closed too_short) (encode blank (FcgiType.abort_request rid))
        (ends too_short) (rw (e) refl) (alone-closed 0 too_short)
  alone-end len false e =
      turn_then 0 (sends len []) (closed (done tt)) (flush_data_chunk [] rid RecordType.std_in)
        (return tt) (rw (e) refl) (alone-closed 0 (done tt))
      ∙ bind-return (flush_data_chunk [] rid RecordType.std_in)

  alone-send_body :
      (chunks : List (Option Bytes)) (len : ℕ)
      → alone (suc (length chunks)) (sends len chunks) ≡ send_body blank rid len chunks
  unfolding send_body send_loop turn
  alone-send_body [] len = alone-end len (ltb 0 len) refl
  alone-send_body (none ∷ chunks) len =
      alone_next (suc (length chunks)) (sends len (none ∷ chunks)) ∙ alone-send_body chunks len
  alone-send_body (some [] ∷ chunks) len =
      alone_next (suc (length chunks)) (sends len (some [] ∷ chunks)) ∙ alone-send_body chunks len
  alone-send_body (some (b ∷ bs) ∷ chunks) len =
      let rest : ℕ = sub_assign len (length (b ∷ bs)) in
      let now : M (Unit {0}) = flush_data_chunk (b ∷ bs) rid RecordType.std_in in
      turn_then (suc (length chunks)) (sends len (some (b ∷ bs) ∷ chunks)) (sends rest chunks) now
        (send_body blank rid rest chunks) refl (alone-send_body chunks rest)
      ∙ sym (bind_assoc now (λ _. send_loop chunks rest rid) _)

  alone-after_head :
      (req : HttpRequest H) (len : Option ℕ)
      → (after_head blank H s rid req len >>= alone (suc (length req.chunks)))
        ≡ send_rest blank H s rid req len
  unfolding send_rest after_head
  alone-after_head req none =
      bind_assoc (flush_data_chunk [] rid RecordType.std_in) (λ _. return (closed (done tt))) _
      ∙ ap (λ k. flush_data_chunk [] rid RecordType.std_in >> k)
          (alone-closed (suc (length req.chunks)) (done tt))
      ∙ bind-return (flush_data_chunk [] rid RecordType.std_in)
  alone-after_head req (some len) = alone-send_body req.chunks len

  alone-after_put :
      (req : HttpRequest H) (o : Outcome (Option ℕ)) (io : Io)
      → (let (o', io') = after_put blank H s rid req o io in
          after o' (alone (suc (length req.chunks))) io')
        ≡ after o (send_rest blank H s rid req) io
  unfolding after_put
  alone-after_put req (done len) io = ap (λ m. m io) (alone-after_head req len)
  alone-after_put req invalid_data io =
      ap (λ m. m io) (alone-closed (suc (length req.chunks)) invalid_data)
  alone-after_put req io_failed io = refl
  alone-after_put req blocked io = refl
  alone-after_put req too_short io = refl
  alone-after_put req panicked io = refl
  alone-after_put req stuck io = refl

  -- If nobody else gets the mutex, two turns more than the body has chunks do just what the rest
  -- of `forward` does from the head of the request on, on every socket, with the same outcome.
  pub alone-send_request :
      (dyn_headers : List (Bytes × Bytes)) (req : HttpRequest H)
      → alone (suc (suc (length req.chunks))) (opens dyn_headers req)
        ≡ send_request blank H s rid dyn_headers req
  unfolding send_request turn
  alone-send_request dyn_headers req =
      alone_next (suc (length req.chunks)) (opens dyn_headers req)
      ∙ fun_ext (λ io.
        alone-after_put req (put_head blank H s rid dyn_headers req io).0
          (put_head blank H s rid dyn_headers req io).1)
