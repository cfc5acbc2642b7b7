-- ===== src/Client/Requests/Loop.antt =====
-- client/connection.rs: `parse_and_distribute` ends, and delivers what the parser reads.
use async_fcgi.Base.{ℕ, zero, suc, ◌+◌, ◌<◌, ◌≡◌, ◌≢◌, refl, ◌∙◌, arith, inl, inr}
use async_fcgi.Base.{false, List, [], ◌∷◌, ◌++◌, Option, none, some, append-nil, append_assoc}
use async_fcgi.Base.{length, All}
use async_fcgi.Base.Result.{Res, ok, panic, ◌>>=◌, Res-cases}
use mathlib.Core.Option
use async_fcgi.Bytes.{Bytes}
use async_fcgi.Fastcgi.Record.{Record}
use async_fcgi.Fastcgi.RecordReader.{RecordReader, read, read_loop}
use async_fcgi.Fastcgi.RecordReader.Output.{Output, outputs, Expect, IsOutputRecord}
use async_fcgi.Fastcgi.RecordReader.Stream.{all_outputs, read_loop-IsRead, weight-le}
use async_fcgi.Fastcgi.RecordReader.Steps.{read_short}
use async_fcgi.Fastcgi.RecordReader.Ends.{read_loop-ne-none}
use async_fcgi.Client.Requests.{Request, Slab, Waker, get, distribute, Distributed, distribute_loop}
use async_fcgi.Client.Requests.{parse_and_distribute}
use async_fcgi.Client.Requests.Delivery.{
  std_out_of, std_out_of-append, Fed, Fed-refl, Fed-trans, distribute-Fed,
}

-- Records distributed one after the other.
distribute_all : Slab → List Record → Slab × List Waker
distribute_all slab [] = (slab, [])
distribute_all slab (r ∷ rs) =
    let (slab1, w1) = distribute slab r in
    let (slab2, w2) = distribute_all slab1 rs in (slab2, w1 ++ w2)

-- What the loop makes of the records that a run of the parser gives.
outcome : Slab → List Waker → Res (List Record × RecordReader × Bytes) → Res Distributed
outcome slab woken res = res >>= λ (recs, parser, left). ok (record {
  running_requests = (distribute_all slab recs).0;
  fcgi_parser = parser;
  left = left;
  woken = woken ++ (distribute_all slab recs).1;
})

outcome-cons :
    (slab : Slab) (r : Record) (woken : List Waker)
    (o : Option (Res (List Record × RecordReader × Bytes)))
    → Option.map (outcome (distribute slab r).0 (woken ++ (distribute slab r).1)) o
      ≡ Option.map
          (outcome slab woken)
          (Option.map (λ res. res >>= λ (recs, p, d). ok (r ∷ recs, p, d)) o)
unfolding outcome distribute_all
outcome-cons slab r woken none = refl
outcome-cons slab r woken (some panic) = refl
outcome-cons slab r woken (some (ok (recs, p, d))) = rw append_assoc refl

-- The loop is a run of the parser, whose records are then distributed.
distribute_loop-read_loop :
    (fuel : ℕ) (d : Bytes) (slab : Slab) (parser : RecordReader) (woken : List Waker)
    → distribute_loop fuel d slab parser woken
      ≡ Option.map (outcome slab woken) (read_loop fuel parser d)
unfolding distribute_loop read_loop
distribute_loop-read_loop zero d slab parser woken = refl
distribute_loop-read_loop (suc fuel) d slab parser woken = elim (Res-cases (read parser d)) [
  | inl e ↦ rw (e, distribute_loop, read_loop) (unfold outcome in refl)
  | inr ((none, parser', left), e) ↦
      rw (e, distribute_loop, read_loop) (unfold outcome distribute_all in rw append-nil refl)
  | inr ((some r, parser', left), e) ↦
      rw (e, distribute_loop, read_loop)
        (distribute_loop-read_loop fuel left (distribute slab r).0 parser'
            (woken ++ (distribute slab r).1)
          ∙ outcome-cons slab r woken (read_loop fuel parser' left))
]

map-ne-none {ℓ κ} :
    {A : Type ℓ} {B : Type κ} (f : A → B) (o : Option A) → o ≢ none → Option.map f o ≢ none
map-ne-none f none h = absurd (h refl)
map-ne-none f (some a) h = λ e. cc

-- `parse_and_distribute` ends on any bytes and in any state of the parser: its loop does not run
-- out of the fuel of two rounds more than there are bytes.
pub parse_and_distribute-ends :
    (d : Bytes) (slab : Slab) (parser : RecordReader) → parse_and_distribute d slab parser ≢ none
unfolding parse_and_distribute
parse_and_distribute-ends d slab parser =
    rw (distribute_loop-read_loop (length d + 2) d slab parser [])
      (map-ne-none _ _ (read_loop-ne-none parser d))

distribute_all-Fed :
    (recs : List Record) (slab : Slab) (k : ℕ) (req : Request)
    → All IsOutputRecord recs
    → get slab k ≡ some req
    → req.aborted ≡ false
    → (req' : Request) × (get (distribute_all slab recs).0 k ≡ some req')
      × Fed req (std_out_of (suc k) (all_outputs recs)) req'
unfolding distribute_all
distribute_all-Fed [] slab k req o e live = (req, e, Fed-refl req)
distribute_all-Fed (r ∷ recs) slab k req o e live =
    let (req1, e1, f1) = distribute-Fed slab r k req o.0 e live in
    let (req2, e2, f2) =
      distribute_all-Fed recs (distribute slab r).0 k req1 o.1 e1 (f1.same_aborted ∙ live) in
    (req2, e2, rw (std_out_of-append (suc k) (outputs r) (all_outputs recs)) (Fed-trans f1 f2))

-- If the bytes of a piece and those still to come are a stream of whole output records, as the
-- state of the parser expects it, the piece is distributed without a panic and within the fuel.
-- What is delivered is the front of the output that was expected, and the rest of it is what is
-- expected from then on. Every request that has a slot and is not aborted still has it, and has
-- its own part of the standard output that was delivered, in order, behind the bytes that it had;
-- its two marks are as they were.
pub parse_and_distribute-delivers :
    (d future : Bytes) (slab : Slab) (parser : RecordReader) (out : List Output)
    → Expect parser.current (d ++ future) out
    → (res : Distributed) × (delivered rest : List Output) × (parse_and_distribute d slab parser
        ≡ some (ok res))
      × (out ≡ delivered ++ rest)
      × Expect res.fcgi_parser.current (res.left ++ future) rest
      × ((k : ℕ) (req : Request)
          → get slab k ≡ some req
          → req.aborted ≡ false
          → (req' : Request) × (get res.running_requests k ≡ some req')
            × Fed req (std_out_of (suc k) delivered) req')
unfolding parse_and_distribute
parse_and_distribute-delivers d future slab parser out ex =
    let (recs, parser', left, e, s) =
      read_loop-IsRead (length d + 2) parser d future out (omega (arith, weight-le parser.current))
        ex in
    (
      record {
        running_requests = (distribute_all slab recs).0;
        fcgi_parser = parser';
        left = left;
        woken = (distribute_all slab recs).1;
      },
      all_outputs recs,
      s.rest,
      distribute_loop-read_loop (length d + 2) d slab parser [] ∙ rw e (unfold outcome in refl),
      s.delivered,
      s.expects,
      λ k req. distribute_all-Fed recs slab k req s.output,
    )

-- Fewer bytes than a header has are left where they are.
pub parse_and_distribute_short :
    (d : Bytes) (slab : Slab)
    → length d < 8
    → parse_and_distribute d slab (record { current = none })
      ≡ some (
          ok (record {
            running_requests = slab;
            fcgi_parser = record { current = none };
            left = d;
            woken = [];
          }))
unfolding parse_and_distribute distribute_loop
parse_and_distribute_short d slab h = rw (enough_fuel, distribute_loop, read_short d h) refl
  where
    enough_fuel : length d + 2 ≡ suc (length d + 1)
    enough_fuel = omega arith
