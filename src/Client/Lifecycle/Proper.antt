-- ===== src/Client/Lifecycle/Proper.antt =====
-- client/connection.rs: no request ever holds an empty buffer.
use async_fcgi.Base.{ℕ, ◌≡◌, refl, ap, sym, ◌∙◌, arith, inl, inr, none, some, Option}
use async_fcgi.Base.{Bool-cases, ◌==◌}
use std.Path.{subst}
use mathlib.Core.Option.{some-injective, none-ne-some}
use async_fcgi.BufVec
use async_fcgi.BufVec.{IsProper}
use async_fcgi.BufVec.Laws.{MeetsChunkContract, IsProper-MeetsChunkContract}
use async_fcgi.Client.Requests.{Request, Slab, get, put}
use async_fcgi.Client.Requests.Slots.{get-put_self, get-put_ne}
use async_fcgi.Client.Requests.Changes.{
  Becomes, removed, changed, Changes, same, wrote, distribute-Changes,
}
use async_fcgi.Client.Connection.{notify_everyone}
use async_fcgi.Client.Connection.Laws.{notify_everyone-AllNotified}
use async_fcgi.Client.Body.Changes.{take_frame-Changes, drop_body-Changes}
use async_fcgi.Client.Response.Changes.{give_back-Changes}
use async_fcgi.Client.Forward.{Inserted, new_request}
use async_fcgi.Client.Lifecycle.{
  State, connected, Actor, Works, receives, notifies, polls, drops, gives_back, Step, acquires,
  gives_up, inserts, works, Reach, here, next,
}
use async_fcgi.Client.Lifecycle.Inserts.{Inserted-origin}

-- No request of the slab holds an empty buffer.
abbrev AllProper : Slab → Type 0
AllProper slab = (k : ℕ) (req : Request) → get slab k ≡ some req → IsProper req.buf

Becomes-IsProper :
    {req : Request} {v : Option Request} (r : Request)
    → Becomes req v
    → v ≡ some r
    → IsProper req.buf
    → IsProper r.buf
Becomes-IsProper r removed e p = cc
Becomes-IsProper r (changed req' keeps a) e p =
    subst (λ x. IsProper x.buf) (some-injective _ _ e) (keeps p)

Changes-AllProper :
    {slab : Slab} {k : ℕ} {slab' : Slab} → Changes k slab slab' → AllProper slab → AllProper slab'
Changes-AllProper same p = p
Changes-AllProper {slab} {k} (wrote req v e b) p = λ j r f. elim (Bool-cases (k == j)) [
  | inl mine ↦
      let here : k ≡ j = ground arith in
      Becomes-IsProper r b (sym (get-put_self slab k v e) ∙ ap (get (put slab k v)) here ∙ f)
        (p k req e)
  | inr other ↦ p j r (sym (get-put_ne slab k j v (λ s. ground arith)) ∙ f)
]

notify_everyone-AllProper : (slab : Slab) → AllProper slab → AllProper (notify_everyone slab).0
notify_everyone-AllProper slab p = λ k r f. by_slot k r f (get slab k) refl
  where
    by_slot :
        (k : ℕ) (r : Request)
        → get (notify_everyone slab).0 k ≡ some r
        → (slot : Option Request) → get slab k ≡ slot
        → IsProper r.buf
    by_slot k r f none e =
        absurd (none-ne-some r (sym ((notify_everyone-AllNotified slab).1 k e) ∙ f))
    by_slot k r f (some req) e =
        let (req', g, n) = (notify_everyone-AllNotified slab).2 k req e in
        subst (λ x. IsProper x.buf) (some-injective _ _ (sym g ∙ f)) (rw (n.same_buf) (p k req e))

Works-AllProper :
    {actor : Actor} {slab slab' : Slab} → Works actor slab slab' → AllProper slab → AllProper slab'
Works-AllProper (receives slab r) = Changes-AllProper (distribute-Changes slab r).1
Works-AllProper (notifies slab) = notify_everyone-AllProper slab
Works-AllProper (polls slab task body f e) =
    Changes-AllProper (take_frame-Changes task body slab f e)
Works-AllProper (drops slab locked body) = Changes-AllProper (drop_body-Changes locked body slab)
Works-AllProper (gives_back slab rid bodydata slab' e) =
    Changes-AllProper (give_back-Changes slab rid bodydata slab' e)

Inserted-AllProper :
    {slab : Slab} {k : ℕ} {slab' : Slab}
    → Inserted slab new_request k slab'
    → AllProper slab
    → AllProper slab'
Inserted-AllProper ins p = λ j r f. elim (Inserted-origin ins j r f) [
  | inl before ↦ p j r before
  | inr fresh ↦ rw (fresh) (unfold BufVec.new in tt)
]

Step-AllProper : {s t : State} → Step s t → AllProper s.slab → AllProper t.slab
Step-AllProper (acquires permits held slab) p = p
Step-AllProper (gives_up permits held slab) p = p
Step-AllProper (inserts permits held slab slab' key ins) p = Inserted-AllProper ins p
Step-AllProper (works permits held slab slab' actor w) p = Works-AllProper w p

Reach-AllProper : (max : ℕ) (s : State) → Reach (connected max) s → AllProper s.slab
Reach-AllProper max s here = λ k req e. absurd (none-ne-some {A = Request} req (unfold get in e))
Reach-AllProper max s (next {t = t} r st) = Step-AllProper st (Reach-AllProper max t r)

-- In every state that a connection reaches, the buffers of every request meet the contract of
-- `Buf::chunk`: the chunk is empty exactly when nothing remains.
pub Reach-MeetsChunkContract :
    (max_req_per_con : ℕ) (s : State) (k : ℕ) (req : Request)
    → Reach (connected max_req_per_con) s
    → get s.slab k ≡ some req
    → MeetsChunkContract req.buf
Reach-MeetsChunkContract max s k req r e =
    IsProper-MeetsChunkContract req.buf (Reach-AllProper max s r k req e)
