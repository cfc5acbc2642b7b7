-- ===== src/Fastcgi/RecordReader/Stream.antt =====
-- fastcgi.rs: the records that come out of a stream do not depend on how it was cut into pieces.
use async_fcgi.Base.{ℕ, zero, suc, ◌+◌, ◌≤◌, ◌<◌, ◌≡◌, refl, ap, ap₂, sym, ◌∙◌, arith, none, some}
use async_fcgi.Base.{
  Option, List, [], ◌∷◌, ◌++◌, length, length-append, append_assoc, append-nil, flatten, All,
  All-append,
}
use async_fcgi.Base.Result.{Res, ok, panic, ◌>>=◌}
use mathlib.Core.Option
use async_fcgi.Bytes.{Bytes}
use async_fcgi.Fastcgi.Header.{Header, length-bytes}
use async_fcgi.Fastcgi.Header
use async_fcgi.Fastcgi.Record.{Record}
use async_fcgi.Fastcgi.RecordReader.{RecordReader, read_loop, new}
use async_fcgi.Fastcgi.RecordReader.Output.{Output, outputs, Expect, done, header, IsOutputRecord}
use async_fcgi.Fastcgi.RecordReader.Fragments.{waits, gives, weight, read-Progress}

-- What the reader makes of `pieces` that arrive one after the other: the loop runs on each, with
-- what was left of the last one in front.
pub receive : RecordReader → Bytes → List Bytes → Option (Res (List Record × RecordReader × Bytes))
receive r left [] = some (ok ([], r, left))
receive r left (piece ∷ pieces) = elim (read_loop (length (left ++ piece) + 2) r (left ++ piece)) [
  | none ↦ none
  | some panic ↦ some panic
  | some (ok (recs, r', left')) ↦
      Option.map (λ res. res >>= λ (more, r'', left''). ok (recs ++ more, r'', left''))
        (receive r' left' pieces)
]

-- All the output of some records.
abbrev pub all_outputs : List Record → List Output
all_outputs [] = []
all_outputs (r ∷ rs) = outputs r ++ all_outputs rs

-- What is so after a stretch of the stream: `out` was expected before it, and `future` is not read.
pub record IsRead (out : List Output) (future : Bytes) (recs : List Record) (r : RecordReader)
    (left : Bytes) : Type 0 where
  pub rest : List Output
  pub expects : Expect r.current (left ++ future) rest
  pub delivered : out ≡ all_outputs recs ++ rest
  pub output : All IsOutputRecord recs
  pub finished : future ≡ [] → (rest ≡ []) × (left ≡ []) × (r.current ≡ none)

pub read_loop-IsRead :
    (fuel : ℕ) (r : RecordReader) (d future : Bytes) (out : List Output)
    → length d + weight r.current < fuel
    → Expect r.current (d ++ future) out
    → (recs : List Record) × (r' : RecordReader) × (left : Bytes) × (read_loop fuel r d
        ≡ some (ok (recs, r', left)))
      × IsRead out future recs r' left
unfolding read_loop
read_loop-IsRead zero r d future out h ex = absurd (omega arith)
read_loop-IsRead (suc fuel) r d future out h ex = elim (read-Progress r d future out ex) [
  | waits r' left e ex' z ↦ (
    [],
    r',
    left,
    rw (e, read_loop) refl,
    record { rest = out; expects = ex'; delivered = refl; output = tt; finished = z },
  )
  | gives rec r' left out' e ex' f less o ↦
      let (recs, r'', left'', e', s) =
        read_loop-IsRead fuel r' left future out' (omega arith) ex' in
      (
        rec ∷ recs,
        r'',
        left'',
        rw (e, read_loop, e') refl,
        record {
          rest = s.rest;
          expects = s.expects;
          delivered =
              f ∙ ap (◌++◌ (outputs rec)) s.delivered ∙ sym (append_assoc (outputs rec) _ _);
          output = (o, s.output);
          finished = s.finished;
        },
      )
]

all_outputs-append :
    (rs qs : List Record) → all_outputs (rs ++ qs) ≡ all_outputs rs ++ all_outputs qs
all_outputs-append [] qs = refl
all_outputs-append (r ∷ rs) qs = rw (all_outputs-append rs qs) (simp append_assoc)

pub weight-le : (c : Option Header) → weight c ≤ 1
weight-le none = omega arith
weight-le (some h) = omega arith

-- A state in which the stream may end.
abbrev IsIdle : List Output → RecordReader → Bytes → Type 0
IsIdle rest r left = (rest ≡ []) × (left ≡ []) × (r.current ≡ none)

receive-cons :
    (piece : Bytes) (pieces : List Bytes) (r r' r'' : RecordReader) (left left' left'' : Bytes)
    (recs more : List Record)
    → read_loop (length (left ++ piece) + 2) r (left ++ piece) ≡ some (ok (recs, r', left'))
    → receive r' left' pieces ≡ some (ok (more, r'', left''))
    → receive r left (piece ∷ pieces) ≡ some (ok (recs ++ more, r'', left''))
unfolding receive
receive-cons piece pieces r r' r'' left left' left'' recs more e e' = rw (e, receive, e') refl

idle-eq-new : (r : RecordReader) → r.current ≡ none → r ≡ new
unfolding new
idle-eq-new r e = ap (λ (c : Option Header). record { current = c }) e

receive-IsRead :
    (pieces : List Bytes) (r : RecordReader) (left future : Bytes) (out : List Output)
    → Expect r.current (left ++ (flatten pieces ++ future)) out
    → (flatten pieces ++ future ≡ [] → IsIdle out r left)
    → (recs : List Record) × (r' : RecordReader) × (left' : Bytes) × (receive r left pieces
        ≡ some (ok (recs, r', left')))
      × IsRead out future recs r' left'
unfolding receive
receive-IsRead [] r left future out ex idle = (
  [],
  r,
  left,
  refl,
  record { rest = out; expects = ex; delivered = refl; output = tt; finished = idle },
)
receive-IsRead (piece ∷ pieces) r left future out ex idle =
    let d = left ++ piece in
    let behind = flatten pieces ++ future in
    let regroup : left ++ ((piece ++ flatten pieces) ++ future) ≡ d ++ behind = simp append_assoc in
    let (recs, r', left', e, s) =
      read_loop-IsRead (length d + 2) r d behind out (omega (arith, weight-le r.current))
        (rw regroup at ex) in
    let (more, r'', left'', e', s') =
      receive-IsRead pieces r' left' future s.rest s.expects s.finished in
    (
      recs ++ more,
      r'',
      left'',
      receive-cons piece pieces r r' r'' left left' left'' recs more e e',
      record {
        rest = s'.rest;
        expects = s'.expects;
        delivered =
            s.delivered
            ∙ ap (◌++◌ (all_outputs recs)) s'.delivered
            ∙ rw (all_outputs-append recs more) (sym (append_assoc (all_outputs recs) _ _));
        output = All-append IsOutputRecord recs more s.output s'.output;
        finished = s'.finished;
      },
    )

nothing_expected : (S : Bytes) (out : List Output) → Expect none S out → S ≡ [] → out ≡ []
nothing_expected S out done e = refl
nothing_expected S out (header {h = h} {behind = behind} w o ex) e =
    absurd (omega (arith, ap length e, length-append (Header.bytes h) behind, length-bytes h))

-- However a stream of whole output records (`Expect none`) is cut into pieces, a new reader that
-- is given the pieces one after the other, each behind the bytes that it left before, never
-- panics and never runs out of fuel. It hands out exactly the bytes of output of the stream, in
-- order, and is then between two records with no byte left.
pub receive-stream :
    (pieces : List Bytes) (out : List Output)
    → Expect none (flatten pieces) out
    → (recs : List Record) × (receive new [] pieces ≡ some (ok (recs, new, [])))
      × (all_outputs recs ≡ out)
unfolding new
receive-stream pieces out ex =
    let (recs, r, left, e, s) =
      receive-IsRead pieces new [] [] out (rw append-nil ex)
        (λ z. (nothing_expected (flatten pieces) out ex (rw append-nil at z), refl, refl)) in
    let (no_rest, no_left, idle) = s.finished refl in
    (
      recs,
      e
          ∙ ap₂ (λ (q : RecordReader) (l : Bytes). some (ok (recs, q, l))) (idle-eq-new r idle)
              no_left,
      sym (s.delivered ∙ rw no_rest (append-nil (all_outputs recs))),
    )
