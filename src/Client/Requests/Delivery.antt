-- ===== src/Client/Requests/Delivery.antt =====
-- client/connection.rs: each request gets its own output, whole and in order.
use async_fcgi.Base.{ℕ, zero, suc, ◌≡◌, ◌≢◌, refl, ap, sym, ◌∙◌, arith, inl, inr}
use async_fcgi.Base.{
  Bool, true, false, List, [], ◌∷◌, ◌++◌, Option, none, some, append-nil, append_assoc,
}
use async_fcgi.Base.{◌==◌, if◌then◌else◌, ◌&&◌, Bool-cases}
use async_fcgi.Bytes.{Bytes}
use async_fcgi.BufVec.{push, IsProper}
use async_fcgi.BufVec.Laws.{contents, contents-push, push-IsProper}
use async_fcgi.Fastcgi.Types.{RecordType}
use async_fcgi.Fastcgi.Header.{Header}
use async_fcgi.Fastcgi.Record.{Record, Body, get_request_id}
use async_fcgi.Fastcgi.RecordReader.Output.{
  IsOutput, std_out, std_err, Output, tag, payload, outputs, IsOutputRecord, body_of,
  payload-body_of,
}
use async_fcgi.Client.Requests.{Request, Slab, get, distribute, on_request, on_slot, on_body}
use async_fcgi.Client.Requests.{on_end_request, on_std_out}
use async_fcgi.Client.Requests.Slots.{get-put_self, get-put_ne}

abbrev is_std_out : RecordType → Bool
is_std_out RecordType.std_out = true
is_std_out _ = false

-- The bytes that some output holds for the standard output of one request.
abbrev pub std_out_of : ℕ → List Output → Bytes
std_out_of id [] = []
std_out_of id ((rid, t, b) ∷ rest) =
    if rid == id && is_std_out t then b ∷ std_out_of id rest else std_out_of id rest

on_slot_isolated :
    (slab : Slab) (n k : ℕ) (slot : Option Request) (body : Body)
    → n ≢ k
    → get (on_slot slab n slot body).0 k ≡ get slab k
unfolding on_slot on_body on_end_request on_std_out
on_slot_isolated slab n k none body ne = refl
on_slot_isolated slab n k (some req) (Body.end_request status) ne = ground (
  arith,
  get-put_ne slab n k none ne,
  get-put_ne slab n k (some (record req { ended = true; waker = none })) ne,
)
on_slot_isolated slab n k (some req) (Body.std_out []) ne = ground arith
on_slot_isolated slab n k (some req) (Body.std_out (b ∷ bs)) ne = ground (
  arith,
  get-put_ne slab n k (some (record req { buf = push req.buf (b ∷ bs); waker = none })) ne,
)
on_slot_isolated slab n k (some req) _ ne = refl

-- A record, of whatever kind, changes no slot but that of its own request.
pub distribute_isolated :
    (slab : Slab) (r : Record) (k : ℕ)
    → r.header.request_id ≢ suc k
    → get (distribute slab r).0 k ≡ get slab k
unfolding distribute get_request_id
distribute_isolated slab r k ne = by_id r.header.request_id ne
  where
    by_id : (id : ℕ) → id ≢ suc k → get (on_request slab id r.body).0 k ≡ get slab k
    by_id zero ne = unfold on_request in refl
    by_id (suc n) ne =
        unfold on_request in on_slot_isolated slab n k (get slab n) r.body (λ e. ne (ap suc e))

-- A request that has been given `bytes` and is otherwise as it was, but for its waker.
pub record Fed (req : Request) (bytes : Bytes) (req' : Request) : Type 0 where
  pub appended : contents req'.buf ≡ contents req.buf ++ bytes
  pub same_aborted : req'.aborted ≡ req.aborted
  pub same_ended : req'.ended ≡ req.ended
  pub keeps_proper : IsProper req.buf → IsProper req'.buf

pub Fed-refl : (req : Request) → Fed req [] req
Fed-refl req = record {
  appended = sym (append-nil (contents req.buf));
  same_aborted = refl;
  same_ended = refl;
  keeps_proper = λ p. p;
}

pub Fed-trans : {r1 r2 r3 : Request} {b c : Bytes} → Fed r1 b r2 → Fed r2 c r3 → Fed r1 (b ++ c) r3
Fed-trans {r1} {b} {c} f g = record {
  appended = g.appended ∙ rw (f.appended) (append_assoc (contents r1.buf) b c);
  same_aborted = g.same_aborted ∙ f.same_aborted;
  same_ended = g.same_ended ∙ f.same_ended;
  keeps_proper = λ p. g.keeps_proper (f.keeps_proper p);
}

on_body-output :
    {t : RecordType} (o : IsOutput t) (b : Bytes) (slab : Slab) (k : ℕ) (req : Request)
    → get slab k ≡ some req
    → req.aborted ≡ false
    → (req' : Request) × (get (on_body slab k req (body_of o b)).0 k ≡ some req')
      × Fed req (if is_std_out t then b else []) req'
unfolding on_body on_std_out
on_body-output std_err b slab k req e live = (req, e, Fed-refl req)
on_body-output std_out [] slab k req e live = (req, ground arith, Fed-refl req)
on_body-output std_out (b ∷ bs) slab k req e live =
    let fed : Request = record req { buf = push req.buf (b ∷ bs); waker = none } in
    (
      fed,
      ground (arith, get-put_self slab k (some fed) e),
      record {
        appended = contents-push req.buf (b ∷ bs);
        same_aborted = refl;
        same_ended = refl;
        keeps_proper = λ p. push-IsProper req.buf (b ∷ bs) p (omega arith);
      },
    )

std_out_of-tag :
    (id : ℕ) (h : Header) (b : Bytes)
    → std_out_of id (tag h b) ≡ (if h.request_id == id && is_std_out h.rtype then b else [])
std_out_of-tag id h [] = ground arith
std_out_of-tag id h (b ∷ bs) = ground (arith, std_out_of-tag id h bs)

pub std_out_of-append :
    (id : ℕ) (xs ys : List Output) → std_out_of id (xs ++ ys) ≡ std_out_of id xs ++ std_out_of id ys
std_out_of-append id [] ys = refl
std_out_of-append id ((rid, t, b) ∷ xs) ys = elim (Bool-cases (rid == id && is_std_out t)) [
  | inl mine ↦ rw mine (ap (◌∷◌ b) (std_out_of-append id xs ys))
  | inr other ↦ rw other (std_out_of-append id xs ys)
]

std_out_of-outputs :
    (id : ℕ) (r : Record) (o : IsOutputRecord r)
    → std_out_of id (outputs r)
      ≡ (if r.header.request_id == id && is_std_out r.header.rtype then o.bytes else [])
std_out_of-outputs id r o =
    ap (λ (b : Bytes). std_out_of id (tag r.header b))
      (ap payload o.is_body ∙ payload-body_of o.stream o.bytes)
    ∙ std_out_of-tag id r.header o.bytes

pub distribute-own :
    (slab : Slab) (r : Record) (k : ℕ) (req : Request)
    → r.header.request_id ≡ suc k
    → get slab k ≡ some req
    → (distribute slab r) ≡ on_body slab k req r.body
unfolding distribute get_request_id on_request on_slot
distribute-own slab r k req mine e = step r.header.request_id mine
  where
    step : (id : ℕ) → id ≡ suc k → on_request slab id r.body ≡ on_body slab k req r.body
    step zero p = absurd (omega arith)
    step (suc n) p =
        let same : n ≡ k = omega arith in
        ap (λ (m : ℕ). on_slot slab m (get slab m) r.body) same
        ∙ ap (λ (slot : Option Request). on_slot slab k slot r.body) e

-- One record of output.
pub distribute-Fed :
    (slab : Slab) (r : Record) (k : ℕ) (req : Request)
    → IsOutputRecord r
    → get slab k ≡ some req
    → req.aborted ≡ false
    → (req' : Request) × (get (distribute slab r).0 k ≡ some req')
      × Fed req (std_out_of (suc k) (outputs r)) req'
distribute-Fed slab r k req o e live = elim (Bool-cases (r.header.request_id == suc k)) [
  | inr other ↦ (
    req,
    distribute_isolated slab r k (λ p. ground arith) ∙ e,
    rw (std_out_of-outputs (suc k) r o, other) (Fed-refl req),
  )
  | inl mine ↦
      let own = distribute-own slab r k req (ground arith) e in
      let (req', e', f) = on_body-output o.stream o.bytes slab k req e live in
      (req', rw (own, o.is_body) e', rw (std_out_of-outputs (suc k) r o, mine) f)
]
