-- ===== src/Client/Turns/Refused.antt =====
-- client/connection.rs: the keys in front of the first header that `forward` refuses.
use async_fcgi.Base.{◌≡◌, refl, ap, true, false, inl, inr, Option, none, some, List, [], ◌∷◌, ◌++◌}
use async_fcgi.Base.{Bool-cases, if◌then◌else◌}
use mathlib.Core.Option
use async_fcgi.Bytes.{Bytes}
use async_fcgi.Client.Headers.{HeaderMap, skip, contains_key, header_value, refuses}
use async_fcgi.Client.Params.{Strategies}
use async_fcgi.Client.Params.Laws.{IsAccepted}

module _ (H : HeaderMap) (s : Strategies) where
  -- The header is forwarded, and its value is refused.
  abbrev pub IsRefused : H.Headers → Bytes → Type 0
  IsRefused headers key =
      (contains_key skip key ≡ false)
      × (refuses s.header_nl (header_value H s.header_mul headers key) ≡ true)

  -- The keys in front of the first refused header, if there is one.
  unfoldable pub split_refused : H.Headers → List Bytes → Option (List Bytes)
  split_refused headers [] = none
  split_refused headers (key ∷ keys) =
      let behind = Option.map (λ before. key ∷ before) (split_refused headers keys) in
      if contains_key skip key
      then behind
      else if refuses s.header_nl (header_value H s.header_mul headers key)
      then some []
      else behind

  -- What `split_refused` finds.
  abbrev pub Splits : H.Headers → List Bytes → Option (List Bytes) → Type 0
  Splits headers keys none = IsAccepted H s headers keys
  Splits headers keys (some before) =
      (key : Bytes) × (after : List Bytes) × (keys ≡ before ++ (key ∷ after))
      × IsAccepted H s headers before
      × IsRefused headers key

  Splits-behind :
      (headers : H.Headers) (key : Bytes) (keys : List Bytes) (found : Option (List Bytes))
      → (contains_key skip key ≡ false
          → refuses s.header_nl (header_value H s.header_mul headers key) ≡ false)
      → Splits headers keys found
      → Splits headers (key ∷ keys) (Option.map (λ before. key ∷ before) found)
  Splits-behind headers key keys none ok a = (ok, a)
  Splits-behind headers key keys (some before) ok (k, after, e, a, r) =
      (k, after, ap (◌∷◌ key) e, (ok, a), r)

  pub split_refused-Splits :
      (headers : H.Headers) (keys : List Bytes) → Splits headers keys (split_refused headers keys)
  unfolding split_refused
  split_refused-Splits headers [] = tt
  split_refused-Splits headers (key ∷ keys) = elim (Bool-cases (contains_key skip key)) [
    | inl skipped ↦
        rw (skipped)
          (Splits-behind headers key keys _ (λ kept. cc) (split_refused-Splits headers keys))
    | inr kept ↦ elim (Bool-cases (refuses s.header_nl (header_value H s.header_mul headers key))) [
      | inl refused ↦ rw (kept, refused) (key, keys, refl, tt, (kept, refused))
      | inr accepted ↦
          rw (kept, accepted)
            (Splits-behind headers key keys _ (λ k. accepted) (split_refused-Splits headers keys))
    ]
  ]
