-- ===== src/Client/Lifecycle/Capacity.antt =====
-- client/connection.rs: a connection carries at most as many requests as it was opened for.
use async_fcgi.Base.{
  ℕ, suc, ◌+◌, ◌≤◌, ◌<◌, ◌≡◌, ◌↔◌, true, ltb→lt, lt→ltb, arith, inl, inr, none, length,
}
use async_fcgi.Client.Requests.{Slab, get}
use async_fcgi.Client.Forward.{Inserted, new_request, rid_of}
use async_fcgi.Client.Lifecycle.{
  State, connected, is_ready, Step, acquires, gives_up, inserts, works, Reach, here, next, occupied,
}
use async_fcgi.Client.Lifecycle.Slots.{Works-Shrinks, Shrinks-occupied, Shrinks-length}
use async_fcgi.Client.Lifecycle.Inserts.{Inserted-occupied, Inserted-length, Inserted-key}

-- Every permit is somewhere, and there are no more slots than permits.
pub record IsBalanced (max_req_per_con : ℕ) (s : State) : Type 0 where
  pub all_permits : s.permits + s.held + occupied s.slab ≡ max_req_per_con
  pub few_slots : length s.slab ≤ max_req_per_con

IsBalanced-is_ready :
    (max : ℕ) (s : State)
    → IsBalanced max s
    → (is_ready s ≡ true) ↔ (s.held + occupied s.slab < max)
unfolding is_ready
IsBalanced-is_ready max s b = (
  λ ready. omega (arith, b.all_permits, ltb→lt 0 s.permits ready),
  λ room. lt→ltb 0 s.permits (omega (arith, b.all_permits)),
)

Inserted-few :
    (max : ℕ) {slab : Slab} {k : ℕ} {slab' : Slab}
    → Inserted slab new_request k slab'
    → occupied slab < max
    → length slab ≤ max
    → length slab' ≤ max
Inserted-few max ins room few = elim (Inserted-length ins) [
  | inl same ↦ omega arith
  | inr grown ↦ omega arith
]

Step-IsBalanced : (max : ℕ) {s t : State} → Step s t → IsBalanced max s → IsBalanced max t
Step-IsBalanced max (acquires permits held slab) b = record {
  all_permits = omega (arith, b.all_permits);
  few_slots = b.few_slots;
}
Step-IsBalanced max (gives_up permits held slab) b = record {
  all_permits = omega (arith, b.all_permits);
  few_slots = b.few_slots;
}
Step-IsBalanced max (inserts permits held slab slab' key ins) b = record {
  all_permits = omega (arith, b.all_permits, Inserted-occupied ins);
  few_slots = Inserted-few max ins (omega (arith, b.all_permits)) b.few_slots;
}
Step-IsBalanced max (works permits held slab slab' actor w) b = record {
  all_permits = omega (arith, b.all_permits, Shrinks-occupied (Works-Shrinks w));
  few_slots = omega (arith, b.few_slots, Shrinks-length (Works-Shrinks w));
}

all-IsBalanced : (max : ℕ) (s : State) → Reach (connected max) s → IsBalanced max s
all-IsBalanced max s here = record { all_permits = omega arith; few_slots = omega arith }
all-IsBalanced max s (next {t = t} r st) = Step-IsBalanced max st (all-IsBalanced max t r)

-- In every state that a connection reaches from its opening, by permits that are taken and given
-- back, insertions, records, polls and drops of bodies, bytes given back and notifications in any
-- order, the permits that are left, those that are held, and the requests in slots are as many as
-- it was opened for, there are no more slots than that, and the connection says that it is ready
-- exactly if fewer permits are in use.
pub Reach-IsBalanced :
    (max_req_per_con : ℕ) (s : State)
    → Reach (connected max_req_per_con) s
    → IsBalanced max_req_per_con s
      × ((is_ready s ≡ true) ↔ (s.held + occupied s.slab < max_req_per_con))
Reach-IsBalanced max s r = let b = all-IsBalanced max s r in (b, IsBalanced-is_ready max s b)

-- A connection is opened for a 16-bit number of requests. In every state that it reaches, the id
-- of a request that is inserted with a held permit is the key plus one without wrap-around, is at
-- most the number that the connection was opened for, and its slot was vacant.
pub Reach-rid_of :
    (max_req_per_con permits held key : ℕ) (slab slab' : Slab)
    → max_req_per_con < 65536
    → Reach (connected max_req_per_con) (record { permits = permits; held = suc held; slab = slab })
    → Inserted slab new_request key slab'
    → (rid_of key ≡ suc key) × (rid_of key ≤ max_req_per_con) × (get slab key ≡ none)
Reach-rid_of max permits held key slab slab' u16 r ins =
    let b = all-IsBalanced max _ r in
    let few = Inserted-few max ins (omega (arith, b.all_permits)) b.few_slots in
    let (in_slab, vacant, _) = Inserted-key ins in (omega arith, omega arith, vacant)
