-- ===== src/Client/Turns/Heads.antt =====
-- client/connection.rs: what the turn of a head writes.
use async_fcgi.Base.{ℕ, suc, ◌-◌, ◌≤◌, ◌≡◌, refl, ap, sym, arith}
use async_fcgi.Base.{List, [], ◌∷◌, ◌++◌, length, append-nil, Option, none, some, inl, inr}
use async_fcgi.Bytes.{Bytes}
use async_fcgi.Fastcgi.Types.{RecordType}
use async_fcgi.Fastcgi.Header.{Header, header_len}
use async_fcgi.Fastcgi.Header
use async_fcgi.Fastcgi.NvBody.Drain.{encodings}
use async_fcgi.Codec.Io.{Io, Outcome, done, invalid_data, after, M, ◌>>◌, return}
use async_fcgi.Codec.Io.Emits.{Ran, ran, broke, Emits, return-Emits, bind-Emits}
use async_fcgi.Codec.Writer.Chunk.{flush_data_chunk_empty}
use async_fcgi.Codec.Writer.Single.{begin_bytes}
use async_fcgi.Client.Headers.{HeaderMap}
use async_fcgi.Client.Params.{HttpRequest, Strategies, announced, put_head}
use async_fcgi.Client.Params.Laws.{cgi_params, put_head-Stream}
use async_fcgi.Client.Turns.{Sender, opens, sends, closed, after_head, after_put, turn}
use async_fcgi.Client.Turns.Refused.{Splits}
use async_fcgi.Client.Params.Multiline.{put_head_multiline}
use std.Path.{subst}
use async_fcgi.Client.Turns.Items.{
  Item, head, refused, head_items, IsHead, params_before, stdin_end, Row, nil, cons, one-Row,
  tagged, body_items, Fits, items, IsSendable, turns_left,
}

-- Of all items that a sender still has to write, one turn writes the next ones.
pub record Turned (blank : Bytes) (H : HeaderMap) (s : Strategies) (rid : ℕ) (sender : Sender H)
    (all : List Item) : Type 0 where
  pub next : Sender H
  pub its : List Item
  pub out : Bytes
  pub emits : Emits (turn blank H s rid sender) out (done next)
  pub row : Row (tagged rid its) out
  pub same : all ≡ its ++ items H s next
  pub sendable : IsSendable H s next
  pub fewer : turns_left next ≤ turns_left sender - 1

module _ (blank : Bytes) (H : HeaderMap) (s : Strategies) (rid : ℕ) where
  -- A call that is followed by `return`.
  pub then_return :
      (m : M (Unit {0})) (sender : Sender H) (out : Bytes)
      → Emits m out (done tt)
      → Emits (m >> return sender) out (done sender)
  then_return m sender out e =
      rw (append-nil out) at (bind-Emits m (λ _. return sender) out [] e (return-Emits sender))

  -- Without a body, the turn of the head ends it too.
  after_head-Turned :
      (req : HttpRequest H) (len : Option ℕ)
      → Fits len req.chunks
      → (next : Sender H) × (its : List Item) × (out : Bytes) × Emits
          (after_head blank H s rid req len)
          out
          (done next)
        × Row (tagged rid its) out
        × (body_items len req.chunks ≡ its ++ items H s next)
        × IsSendable H s next
        × (turns_left next ≤ suc (length req.chunks))
  unfolding after_head
  after_head-Turned req none fits =
      let (out, e, st) = flush_data_chunk_empty rid RecordType.std_in in
      (
        closed (done tt),
        stdin_end ∷ [],
        out,
        then_return _ (closed (done tt)) out e,
        one-Row rid stdin_end out st,
        refl,
        tt,
        omega arith,
      )
  after_head-Turned req (some len) fits = (
    sends len req.chunks,
    [],
    [],
    return-Emits (sends len req.chunks),
    nil,
    refl,
    fits,
    omega arith,
  )

  not_refused :
      (req : HttpRequest H) (io : Io) (out : Bytes) (len : Option ℕ) (run : Outcome (Option ℕ) × Io)
      → Ran io out (done len) run
      → after_put blank H s rid req run.0 run.1 ≡ after run.0 (after_head blank H s rid req) run.1
  unfolding after_put
  not_refused req io out len run (ran e w b) = rw (e) refl
  not_refused req io out len run (broke front back e (inl stopped) w b) = rw (stopped) refl
  not_refused req io out len run (broke front back e (inr stopped) w b) = rw (stopped) refl

  Ran-refused :
      (req : HttpRequest H) (io : Io) (out : Bytes) (run : Outcome (Option ℕ) × Io)
      → Ran io out invalid_data run
      → Ran io out (done (closed invalid_data)) (after_put blank H s rid req run.0 run.1)
  unfolding after_put
  Ran-refused req io out run (ran e w b) = rw (e) (ran refl w b)
  Ran-refused req io out run (broke front back e (inl stopped) w b) =
      rw (stopped) (broke front back e (inl refl) w b)
  Ran-refused req io out run (broke front back e (inr stopped) w b) =
      rw (stopped) (broke front back e (inr refl) w b)

  pub sends_head :
      (dyn_headers : List (Bytes × Bytes)) (req : HttpRequest H) (found : Option (List Bytes))
      → length blank ≡ header_len
      → Splits H s req.headers (H.keys req.headers) found
      → IsHead H s dyn_headers req found
      → Turned blank H s rid (opens dyn_headers req) (head_items H s dyn_headers req found)
  unfolding turn
  sends_head dyn_headers req none eight accepted ok =
      let len : Option ℕ = announced req.size_upper req.size_lower in
      let payload : Bytes = encodings (cgi_params H s dyn_headers req) in
      let put : M (Option ℕ) = put_head blank H s rid dyn_headers req in
      let (params, e, st) = put_head-Stream blank H s rid dyn_headers req eight accepted ok.0 in
      let (next, its, out, e', row, same, sendable, left) = after_head-Turned req len ok.1 in
      let begun : Bytes = begin_bytes rid ++ params in
      record {
        next = next;
        its = head payload ∷ its;
        out = begun ++ out;
        emits = λ io.
            subst (λ run. Ran io (begun ++ out) (done next) run)
              (sym (not_refused req io begun len (put io) (e io)))
              (bind-Emits put (after_head blank H s rid req) begun out e e' io);
        row = cons begun (params, refl, st) row;
        same = ap (◌∷◌ (head payload)) same;
        sendable = sendable;
        fewer = omega (arith, left);
      }
  sends_head dyn_headers req (some before) eight (key, after, split, accepted, r) ok =
      let payload : Bytes = encodings (params_before H s dyn_headers req before) in
      let (sent, kept, params, e, records, same) =
        put_head_multiline blank H s rid dyn_headers req before after key eight split accepted r.0
          r.1 ok in
      let out : Bytes =
        begin_bytes rid ++ (params ++ Header.bytes (Header.new RecordType.abort_request rid 0)) in
      record {
        next = closed invalid_data;
        its = refused payload ∷ [];
        out = out;
        emits = λ io. Ran-refused req io out _ (e io);
        row = one-Row rid (refused payload) out (sent, kept, params, same, refl, records);
        same = refl;
        sendable = tt;
        fewer = omega arith;
      }
