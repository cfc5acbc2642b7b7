-- ===== src/Client/Headers/Values.antt =====
-- client/connection.rs: the values of the parameters that are made of headers.
use async_fcgi.Base.{◌≡◌, ◌≢◌, refl, ◌∙◌, arith, true}
use async_fcgi.Base.{List, [], ◌∷◌, ◌++◌, All, ◌==◌, if◌then◌else◌, append-nil, append_assoc}
use async_fcgi.Bytes.{Bytes}
use async_fcgi.Client.Headers.{HeaderMap, combine, header_value, combine_loop}

-- The fields between the commas: the first, and the others.
abbrev pub fields : Bytes → Bytes × List Bytes
fields [] = ([], [])
fields (c ∷ cs) = let (f, fs) = fields cs in if c == 44 then ([], f ∷ fs) else (c ∷ f, fs)

abbrev pub NoComma : Bytes → Type 0
NoComma v = All (λ c. c ≢ 44) v

-- The values behind the first, each with a comma in front.
tail_of : List Bytes → Bytes
tail_of [] = []
tail_of (v ∷ vs) = 44 ∷ (v ++ tail_of vs)

combine_loop-tail_of :
    (buf : Bytes) (vs : List Bytes) → combine_loop buf true vs ≡ buf ++ tail_of vs
unfolding combine_loop tail_of
combine_loop-tail_of buf [] = rw (append-nil buf) refl
combine_loop-tail_of buf (v ∷ vs) =
    combine_loop-tail_of ((buf ++ (44 ∷ [])) ++ v) vs ∙ simp append_assoc

fields-append :
    (v : Bytes) (cs : Bytes) → NoComma v → fields (v ++ cs) ≡ (v ++ (fields cs).0, (fields cs).1)
fields-append [] cs n = refl
fields-append (c ∷ v) cs n = rw (fields-append v cs n.1) (ground arith)

fields-tail_of :
    (v : Bytes) (vs : List Bytes) → NoComma v → All NoComma vs → fields (v ++ tail_of vs) ≡ (v, vs)
unfolding tail_of
fields-tail_of v [] n ns = rw (fields-append v [] n, append-nil v) refl
fields-tail_of v (w ∷ vs) n ns =
    rw (fields-append v (44 ∷ (w ++ tail_of vs)) n, fields-tail_of w vs ns.0 ns.1, append-nil v)
      refl

module _ (H : HeaderMap) where
  -- If a header has values, none of which has a comma, the value that `Combine` makes of them
  -- falls at its commas into just these values, in order.
  pub combine-fields :
      (h : H.Headers) (key v : Bytes) (vs : List Bytes)
      → H.get_all h key ≡ v ∷ vs
      → All NoComma (v ∷ vs)
      → fields (header_value H combine h key) ≡ (v, vs)
  unfolding header_value combine_loop
  combine-fields h key v vs e n =
      rw (e, combine_loop, combine_loop-tail_of v vs) (fields-tail_of v vs n.0 n.1)
