-- ===== src/Client/Turns/Served.antt =====
-- client/connection.rs: requests that are sent at the same time do not disturb each other.
use async_fcgi.Base.{ℕ, suc, ◌-◌, ◌≤◌, ◌≡◌, refl, ap, sym, ◌∙◌, arith, ◌==◌}
use async_fcgi.Base.{
  List, [], ◌∷◌, ◌++◌, length, append_assoc, append-nil, if◌then◌else◌, Bool, Bool-cases, inl, inr,
  true, false,
}
use async_fcgi.Bytes.{Bytes}
use async_fcgi.Fastcgi.Header.{header_len}
use async_fcgi.Codec.Io.{done}
use async_fcgi.Codec.Io.Emits.{Emits, return-Emits, bind-Emits}
use async_fcgi.Client.Headers.{HeaderMap}
use async_fcgi.Client.Params.{Strategies}
use async_fcgi.Client.Turns.{Sender, opens, sends, closed, Senders, update, take_turns}
use async_fcgi.Client.Turns.Items.{
  Item, Row, nil, Row-append, of_request, of_request-tagged, tagged, items, IsSendable, turns_left,
}
use async_fcgi.Client.Turns.Heads.{Turned}
use async_fcgi.Client.Turns.Written.{turn-Turned}

-- The turns of a request in a schedule.
abbrev pub count : ℕ → List ℕ → ℕ
count k [] = 0
count k (rid ∷ schedule) = let others = count k schedule in if rid == k then suc others else others

-- A schedule writes whole items: each request's own, in order, as far as it got.
pub record Served (blank : Bytes) (H : HeaderMap) (s : Strategies) (schedule : List ℕ)
    (senders : Senders H) : Type 0 where
  pub after : Senders H
  pub log : List (ℕ × Item)
  pub out : Bytes
  pub emits : Emits (take_turns blank H s schedule senders) out (done after)
  pub row : Row log out
  pub same : (k : ℕ) → items H s (senders k) ≡ of_request k log ++ items H s (after k)
  pub left : (k : ℕ) → turns_left (after k) ≤ turns_left (senders k) - count k schedule

module _ (blank : Bytes) (H : HeaderMap) (s : Strategies) where
  update-IsSendable :
      (senders : Senders H) (rid : ℕ) (sender : Sender H) (k : ℕ)
      → IsSendable H s sender
      → IsSendable H s (senders k)
      → IsSendable H s (update senders rid sender k)
  unfolding update
  update-IsSendable senders rid sender k ok oks = elim (Bool-cases (rid == k)) [
    | inl e ↦ rw (e) ok
    | inr e ↦ rw (e) oks
  ]

  update_self :
      (senders : Senders H) (rid : ℕ) (sender : Sender H) (k : ℕ)
      → (rid == k) ≡ true
      → update senders rid sender k ≡ sender
  unfolding update
  update_self senders rid sender k e = rw (e) refl

  update_other :
      (senders : Senders H) (rid : ℕ) (sender : Sender H) (k : ℕ)
      → (rid == k) ≡ false
      → update senders rid sender k ≡ senders k
  unfolding update
  update_other senders rid sender k e = rw (e) refl

  serve_same :
      (rid : ℕ) (senders : Senders H)
      (t : Turned blank H s rid (senders rid) (items H s (senders rid))) (log : List (ℕ × Item))
      (its : List Item) (k : ℕ)
      → items H s (update senders rid t.next k) ≡ of_request k log ++ its
      → items H s (senders k) ≡ of_request k (tagged rid t.its ++ log) ++ its
  serve_same rid senders t log its k h = elim (Bool-cases (rid == k)) [
    | inl e ↦
        ap (λ j. items H s (senders j)) (mine e)
        ∙ t.same
        ∙ ap (◌++◌ t.its) (ap (items H s) (sym (update_self senders rid t.next k e)) ∙ h)
        ∙ sym (append_assoc t.its (of_request k log) its)
        ∙ ap (λ said. said ++ its) (sym (front true e))
    | inr e ↦
        ap (items H s) (sym (update_other senders rid t.next k e))
        ∙ h
        ∙ ap (λ said. said ++ its) (sym (front false e))
  ]
    where
      mine : (rid == k) ≡ true → k ≡ rid
      mine e = ground arith

      front :
          (b : Bool)
          → (rid == k) ≡ b
          → of_request k (tagged rid t.its ++ log) ≡ (if b then t.its else []) ++ of_request k log
      front b e =
          of_request-tagged k rid t.its log
          ∙ ap (λ c. (if c then t.its else []) ++ of_request k log) e

  serve_left :
      (rid : ℕ) (senders : Senders H)
      (t : Turned blank H s rid (senders rid) (items H s (senders rid))) (schedule : List ℕ)
      (n k : ℕ)
      → n ≤ turns_left (update senders rid t.next k) - count k schedule
      → n ≤ turns_left (senders k) - count k (rid ∷ schedule)
  serve_left rid senders t schedule n k h = elim (Bool-cases (rid == k)) [
    | inl e ↦
        let same : k ≡ rid = ground arith in
        let now = ap turns_left (update_self senders rid t.next k e) in
        let before = ap (λ j. turns_left (senders j)) same in
        rw (e) (omega (arith, now, before, t.fewer))
    | inr e ↦
        let now = ap turns_left (update_other senders rid t.next k e) in rw (e) (omega (arith, now))
  ]

  take_turns-Served :
      (schedule : List ℕ) (senders : Senders H)
      → length blank ≡ header_len
      → ((k : ℕ) → IsSendable H s (senders k))
      → Served blank H s schedule senders
  unfolding take_turns
  take_turns-Served [] senders eight ok = record {
    after = senders;
    log = [];
    out = [];
    emits = return-Emits senders;
    row = nil;
    same = λ k. refl;
    left = λ k. omega arith;
  }
  take_turns-Served (rid ∷ schedule) senders eight ok =
      let t = turn-Turned blank H s rid (senders rid) eight (ok rid) in
      let r =
        take_turns-Served schedule (update senders rid t.next) eight
          (λ k. update-IsSendable senders rid t.next k t.sendable (ok k)) in
      record {
        after = r.after;
        log = tagged rid t.its ++ r.log;
        out = t.out ++ r.out;
        emits = bind-Emits _ _ t.out r.out t.emits r.emits;
        row = Row-append t.row r.row;
        same = λ k. serve_same rid senders t r.log (items H s (r.after k)) k (r.same k);
        left = λ k. serve_left rid senders t schedule (turns_left (r.after k)) k (r.left k);
      }

  done_in : (sender : Sender H) → turns_left sender ≡ 0 → items H s sender ≡ []
  done_in (opens dyn_headers req) e = absurd (omega arith)
  done_in (sends len chunks) e = absurd (omega arith)
  done_in (closed o) e = refl

  -- Let eight bytes be the place of a header, and let the parameters of every sender that is
  -- about to start, up to a header that is refused, have names and values of at most 0x7fffffff
  -- bytes, with announced lengths and bodies below 2^64. In whatever order the mutex is handed
  -- on, a socket that takes it all gets a row of whole items, and those of any one request are
  -- the front of what it has to write: its beginning with one stream of parameters, its chunks as
  -- records of STDIN, in order, and the end of STDIN if the body has the announced length,
  -- otherwise the record that aborts it; with a header that is refused, its beginning, a front of
  -- the parameters before it and the record that aborts it. A request that gets as many turns as
  -- its sender has left, two more than its body has chunks at the start, writes it all. If the
  -- socket fails or blocks, a front of these bytes is written and the run does not end well.
  pub take_turns-isolates :
      (schedule : List ℕ) (senders : Senders H) (k : ℕ)
      → length blank ≡ header_len
      → ((j : ℕ) → IsSendable H s (senders j))
      → turns_left (senders k) ≤ count k schedule
      → (r : Served blank H s schedule senders) × (items H s (senders k) ≡ of_request k r.log)
  take_turns-isolates schedule senders k eight ok enough =
      let r = take_turns-Served schedule senders eight ok in
      (
        r,
        r.same k
            ∙ ap (◌++◌ (of_request k r.log)) (done_in (r.after k) (omega (arith, r.left k)))
            ∙ append-nil (of_request k r.log),
      )
