-- ===== src/Client/Turns/Written.antt =====
-- client/connection.rs: what one turn writes.
use async_fcgi.Base.{ℕ, ◌-◌, ◌≤◌, ◌≡◌, refl, ap, sym, ◌∙◌, arith, ◌==◌}
use async_fcgi.Base.{
  List, [], ◌∷◌, ◌++◌, length, length-append, Option, none, some, ltb, Bool-cases, inl, inr, true,
  false,
}
use async_fcgi.Bytes.{Bytes}
use async_fcgi.Fastcgi.Types.{RecordType}
use async_fcgi.Fastcgi.Header.{Header, header_len}
use async_fcgi.Fastcgi.Header
use async_fcgi.Codec.Io.{done, too_short, return}
use async_fcgi.Codec.Io.Emits.{same-Emits, return-Emits}
use async_fcgi.Codec.Writer.Chunk.{flush_data_chunk-Records, flush_data_chunk_empty}
use async_fcgi.Codec.Writer.Body.{body_bytes, abort-Emits}
use async_fcgi.Client.Headers.{HeaderMap}
use async_fcgi.Client.Params.{Strategies}
use async_fcgi.Client.Send.{sub_assign}
use async_fcgi.Client.Turns.{Sender, opens, sends, closed, turn}
use async_fcgi.Client.Turns.Refused.{split_refused, split_refused-Splits}
use async_fcgi.Client.Turns.Items.{
  content, stdin_end, abort, nil, one-Row, contents, ending, Fits, items, IsSendable, turns_left,
  ending-sub_assign,
}
use async_fcgi.Client.Turns.Heads.{Turned, then_return, sends_head}

module _ (blank : Bytes) (H : HeaderMap) (s : Strategies) (rid : ℕ) where
  silent :
      (sender next : Sender H)
      → turn blank H s rid sender ≡ return next
      → items H s sender ≡ items H s next
      → IsSendable H s next
      → turns_left next ≤ turns_left sender - 1
      → Turned blank H s rid sender (items H s sender)
  silent sender next now same ok fewer = record {
    next = next;
    its = [];
    out = [];
    emits = same-Emits now (return-Emits next);
    row = nil;
    same = same;
    sendable = ok;
    fewer = fewer;
  }

  ends_body : (len : ℕ) → Turned blank H s rid (sends len []) (items H s (sends len []))
  unfolding turn
  ends_body len = elim (Bool-cases (ltb 0 len)) [
    | inl e ↦
        let header : Bytes = Header.bytes (Header.new RecordType.abort_request rid 0) in
        record {
          next = closed too_short;
          its = abort ∷ [];
          out = header;
          emits = same-Emits (rw (e) refl) (abort-Emits blank rid (done (closed too_short)));
          row = one-Row rid abort header refl;
          same = rw (too_many e) refl;
          sendable = tt;
          fewer = omega arith;
        }
    | inr e ↦
        let (out, em, st) = flush_data_chunk_empty rid RecordType.std_in in
        record {
          next = closed (done tt);
          its = stdin_end ∷ [];
          out = out;
          emits = same-Emits (rw (e) refl) (then_return blank H s rid _ (closed (done tt)) out em);
          row = one-Row rid stdin_end out st;
          same = rw (none_left e) refl;
          sendable = tt;
          fewer = omega arith;
        }
  ]
    where
      too_many : ltb 0 len ≡ true → (0 == len) ≡ false
      too_many e = ground arith

      none_left : ltb 0 len ≡ false → (0 == len) ≡ true
      none_left e = ground arith

  sends_chunk :
      (b : ℕ) (bs : Bytes) (chunks : List (Option Bytes)) (len : ℕ)
      → Fits (some len) (some (b ∷ bs) ∷ chunks)
      → Turned blank H s rid
          (sends len (some (b ∷ bs) ∷ chunks))
          (items H s (sends len (some (b ∷ bs) ∷ chunks)))
  unfolding turn
  sends_chunk b bs chunks len ok =
      let total = length-append (b ∷ bs) (body_bytes chunks) in
      let (out, e, r) = flush_data_chunk-Records (b ∷ bs) rid RecordType.std_in (omega arith) in
      record {
        next = sends (sub_assign len (length (b ∷ bs))) chunks;
        its = content (b ∷ bs) ∷ [];
        out = out;
        emits = then_return blank H s rid _ _ out e;
        row = one-Row rid (content (b ∷ bs)) out r;
        same =
            ap (λ last. content (b ∷ bs) ∷ (contents chunks ++ (last ∷ [])))
              (ap (λ n. ending n len) total
                ∙ sym (
                    ending-sub_assign (length (b ∷ bs)) (length (body_bytes chunks)) len ok.0
                      (omega (arith, total))));
        sendable = (unfold sub_assign in omega arith, omega (arith, total));
        fewer = omega arith;
      }

  pub turn-Turned :
      (sender : Sender H)
      → length blank ≡ header_len
      → IsSendable H s sender
      → Turned blank H s rid sender (items H s sender)
  unfolding turn
  turn-Turned (opens dyn_headers req) eight ok =
      sends_head blank H s rid dyn_headers req (split_refused H s req.headers (H.keys req.headers))
        eight (split_refused-Splits H s req.headers (H.keys req.headers)) ok
  turn-Turned (sends len []) eight ok = ends_body len
  turn-Turned (sends len (none ∷ chunks)) eight ok =
      silent (sends len (none ∷ chunks)) (sends len chunks) refl refl ok (omega arith)
  turn-Turned (sends len (some [] ∷ chunks)) eight ok =
      silent (sends len (some [] ∷ chunks)) (sends len chunks) refl refl ok (omega arith)
  turn-Turned (sends len (some (b ∷ bs) ∷ chunks)) eight ok = sends_chunk b bs chunks len ok
  turn-Turned (closed o) eight ok = silent (closed o) (closed o) refl refl ok (omega arith)
