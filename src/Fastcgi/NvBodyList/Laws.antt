-- ===== src/Fastcgi/NvBodyList/Laws.antt =====
-- fastcgi.rs: `NVBodyList` splits the pairs into bodies and loses none.
use async_fcgi.Base.{◌≤◌, ◌<◌, ◌≡◌, refl, ap, sym, ◌∙◌, arith, true, inl, inr}
use async_fcgi.Base.{List, [], ◌∷◌, ◌++◌, map, length, append_assoc, append-nil, some}
use async_fcgi.Base.{if◌then◌else◌, Bool-cases, All, not, le→leb}
use async_fcgi.Base.Result.{ok}
use async_fcgi.Bytes.{Bytes}
use async_fcgi.BufVec
use async_fcgi.BufVec.{IsProper}
use async_fcgi.BufVec.Laws.{contents}
use async_fcgi.Fastcgi.NameValuePair.{NameValuePair}
use async_fcgi.Fastcgi.NameValuePair
use async_fcgi.Fastcgi.NameValuePair.Laws.{encoding}
use async_fcgi.Fastcgi.NvBody.{NvBody, max_length}
use async_fcgi.Fastcgi.NvBody
use async_fcgi.Fastcgi.NvBody.Laws.{IsValid, new-IsValid, add-IsValid, add-IsProper, add-fits}
use async_fcgi.Fastcgi.NvBody.Drain.{encodings}
use async_fcgi.Fastcgi.NvBodyList.{NvBodyList, new, add, extend, from_iter, split_last, add_behind}

encodings-append :
    (ps qs : List NameValuePair) → encodings (ps ++ qs) ≡ encodings ps ++ encodings qs
encodings-append [] qs = refl
encodings-append (p ∷ ps) qs = rw (encodings-append ps qs) (simp append_assoc)

-- A body that holds these pairs, in this order.
pub record Holds (b : NvBody) (ps : List NameValuePair) : Type 0 where
  pub valid : IsValid b
  pub proper : IsProper b.pairs
  pub encoded : contents b.pairs ≡ encodings ps

-- The bodies hold the pairs in turn, each pair whole in one body.
pub data Split : List NvBody → List NameValuePair → Type 0 where
  nil : Split [] []
  cons :
      {b : NvBody} {bs : List NvBody} {ps qs : List NameValuePair}
      → Holds b ps
      → Split bs qs
      → Split (b ∷ bs) (ps ++ qs)

abbrev pub IsSendable : NameValuePair → Type 0
IsSendable p = (NameValuePair.len p ≤ max_length) × (0 < length p.name_data)

Split-append :
    {bs cs : List NvBody} {ps qs : List NameValuePair}
    → Split bs ps
    → Split cs qs
    → Split (bs ++ cs) (ps ++ qs)
Split-append nil t = t
Split-append (cons {ps = xs} {qs = ys} h s) t = rw append_assoc (cons h (Split-append s t))

Split-one : {b : NvBody} {ps : List NameValuePair} → Holds b ps → Split (b ∷ []) ps
Split-one {ps} h = rw append-nil at (cons h nil)

new-Holds : Holds NvBody.new []
unfolding NvBody.new BufVec.new
new-Holds = record { valid = new-IsValid; proper = tt; encoded = refl }

add-Holds :
    (b : NvBody) (ps : List NameValuePair) (p : NameValuePair)
    → Holds b ps
    → NvBody.fits b p ≡ true
    → 0 < length p.name_data
    → Holds (NvBody.add b p).0 (ps ++ (p ∷ []))
add-Holds b ps p h fit named = record {
  valid = add-IsValid b p h.valid;
  proper = add-IsProper b p h.proper named;
  encoded =
      (add-fits b p fit).1.appended
      ∙ rw (h.encoded, encodings-append) (ap (◌++◌ (encodings ps)) (sym (append-nil (encoding p))));
}

split_last-append :
    (front : List NvBody) (l : NvBody) → split_last (front ++ (l ∷ [])) ≡ some (front, l)
unfolding split_last
split_last-append [] l = refl
split_last-append (b ∷ []) l = refl
split_last-append (b ∷ (c ∷ r)) l = rw (split_last-append (c ∷ r) l, split_last) refl

new-fits : (p : NameValuePair) → NameValuePair.len p ≤ max_length → NvBody.fits NvBody.new p ≡ true
unfolding NvBody.fits NvBody.new
new-fits p h = le→leb _ _ (omega arith)

-- The state of a list that was given `ps`: `before` is in the bodies that are full, `current` in
-- the last one.
record IsSplit (l : NvBodyList) (ps : List NameValuePair) : Type 0 where
  front : List NvBody
  last : NvBody
  before : List NameValuePair
  current : List NameValuePair
  shape : l.bodies ≡ front ++ (last ∷ [])
  pairs : ps ≡ before ++ current
  closed : Split front before
  filling : Holds last current

IsSplit-Split : (l : NvBodyList) (ps : List NameValuePair) → IsSplit l ps → Split l.bodies ps
IsSplit-Split l ps s = rw (s.shape, s.pairs) (Split-append s.closed (Split-one s.filling))

new-IsSplit : IsSplit new []
unfolding new
new-IsSplit = record {
  front = [];
  last = NvBody.new;
  before = [];
  current = [];
  shape = refl;
  pairs = refl;
  closed = nil;
  filling = new-Holds;
}

add_behind_lem :
    (front : List NvBody) (nv : NvBody) (p : NameValuePair)
    → NvBody.fits nv p ≡ true
    → add_behind front nv p ≡ ok (record { bodies = front ++ ((NvBody.add nv p).0 ∷ []) })
unfolding add_behind
add_behind_lem front nv p fit = rw ((add-fits nv p fit).0, add_behind) refl

-- The list behaves by its last body.
add_open :
    (l : NvBodyList) (front : List NvBody) (nv : NvBody) (p : NameValuePair)
    → l.bodies ≡ front ++ (nv ∷ [])
    → add l p ≡ (
        if not (NvBody.fits nv p)
        then add_behind (front ++ (nv ∷ [])) NvBody.new p
        else add_behind front nv p)
unfolding add
add_open l front nv p e = rw (e, add, split_last-append front nv) refl

add-IsSplit :
    (l : NvBodyList) (ps : List NameValuePair) (p : NameValuePair)
    → IsSplit l ps
    → IsSendable p
    → (l' : NvBodyList) × (add l p ≡ ok l') × IsSplit l' (ps ++ (p ∷ []))
add-IsSplit l ps p s (small, named) = elim (Bool-cases (NvBody.fits s.last p)) [
  | inl fit ↦ (
    record { bodies = s.front ++ ((NvBody.add s.last p).0 ∷ []) },
    add_open l s.front s.last p s.shape ∙ rw fit (add_behind_lem s.front s.last p fit),
    record {
      front = s.front;
      last = (NvBody.add s.last p).0;
      before = s.before;
      current = s.current ++ (p ∷ []);
      shape = refl;
      pairs = rw (s.pairs) (append_assoc s.before s.current (p ∷ []));
      closed = s.closed;
      filling = add-Holds s.last s.current p s.filling fit named;
    },
  )
  | inr full ↦
      let room = new-fits p small in
      let front' : List NvBody = s.front ++ (s.last ∷ []) in
      (
        record { bodies = front' ++ ((NvBody.add NvBody.new p).0 ∷ []) },
        add_open l s.front s.last p s.shape ∙ rw full (add_behind_lem front' NvBody.new p room),
        record {
          front = front';
          last = (NvBody.add NvBody.new p).0;
          before = ps;
          current = p ∷ [];
          shape = refl;
          pairs = refl;
          closed = rw (← s.shape) (IsSplit-Split l ps s);
          filling = add-Holds NvBody.new [] p new-Holds room named;
        },
      )
]

abbrev pub pairs_of : List (Bytes × Bytes) → List NameValuePair
pairs_of = map λ kv. NameValuePair.new kv.0 kv.1

extend-IsSplit :
    (iter : List (Bytes × Bytes)) (l : NvBodyList) (ps : List NameValuePair)
    → IsSplit l ps
    → All IsSendable (pairs_of iter)
    → (l' : NvBodyList) × (extend l iter ≡ ok l') × IsSplit l' (ps ++ pairs_of iter)
unfolding extend
extend-IsSplit [] l ps s h = (l, refl, rw append-nil s)
extend-IsSplit (kv ∷ iter) l ps s h =
    let p = NameValuePair.new kv.0 kv.1 in
    let (l1, e1, s1) = add-IsSplit l ps p s h.0 in
    let (l2, e2, s2) = extend-IsSplit iter l1 (ps ++ (p ∷ [])) s1 h.1 in
    (l2, rw e1 e2, rw append_assoc at s2)

-- Pairs with a name of at least one byte, of which each fits one record, are split over the
-- bodies: `from_iter` does not panic, every body is within the limit and counts its bytes
-- rightly, and the bodies hold the encodings of the pairs, in order, each pair whole in one body.
pub from_iter-Split :
    (iter : List (Bytes × Bytes))
    → All IsSendable (pairs_of iter)
    → (l : NvBodyList) × (from_iter iter ≡ ok l) × Split l.bodies (pairs_of iter)
unfolding from_iter
from_iter-Split iter h =
    let (l, e, s) = extend-IsSplit iter new [] new-IsSplit h in (l, e, IsSplit-Split l _ s)
