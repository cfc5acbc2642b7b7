-- ===== src/Httpparse/Laws.antt =====
-- httpparse.rs: `parse` on a head that arrives in pieces, and what becomes of its headers.
use async_fcgi.Base.{ℕ, ◌-◌, ◌≤◌, ◌<◌, ◌≡◌, ◌≢◌, zero, suc, refl, ap, sym, ◌∙◌, arith}
use async_fcgi.Base.{
  List, [], ◌∷◌, ◌++◌, Option, some, length, length-append, length-drop, take, drop, All, le→leb,
  drop-append_le,
}
use mathlib.Core.Option.{some-injective}
use async_fcgi.Base.Result.{ok}
use async_fcgi.Bytes.{Bytes, slice, advance-append}
use async_fcgi.Httpparse.{
  RawHeader, Status, complete, partial, parsed, pending, ResponseMap, insert_named, insert_headers,
  on_status, parse,
}

-- The value of a header lies in the bytes of the head.
abbrev IsInside : Bytes → RawHeader → Type 0
IsInside head h = (h.value_start ≤ h.value_end) × (h.value_end ≤ length head)

abbrev pub value_of : Bytes → RawHeader → Bytes
value_of bytes h = take (h.value_end - h.value_start) (drop h.value_start bytes)

-- What `parse_headers` documents for a head and its headers: fronts of it are partial, it is complete
-- whatever follows, and the headers are names and places in it.
pub record IsHead (header_name : Bytes → Option Bytes) (parse_headers : Bytes → Option Status)
    (head : Bytes) (headers : List RawHeader) : Type 0 where
  pub fronts :
      (front back : Bytes)
      → front ++ back ≡ head
      → 0 < length back
      → parse_headers front ≡ some partial
  pub whole : (rest : Bytes) → parse_headers (head ++ rest) ≡ some (complete (length head) headers)
  pub named : All (λ h. (name : Bytes) × (header_name h.name ≡ some name)) headers
  pub inside : All (IsInside head) headers

take-append_le : (n : ℕ) (xs ys : Bytes) → n ≤ length xs → take n (xs ++ ys) ≡ take n xs
take-append_le zero xs ys h = refl
take-append_le (suc n) [] ys h = absurd (omega arith)
take-append_le (suc n) (x ∷ xs) ys h = ap (◌∷◌ x) (take-append_le n xs ys (omega arith))

slice-value_of :
    (head rest : Bytes) (h : RawHeader)
    → IsInside head h
    → slice (head ++ rest) h.value_start h.value_end ≡ ok (value_of head h)
unfolding slice
slice-value_of head rest h i =
    rw
      (
        le→leb h.value_start h.value_end i.0,
        le→leb h.value_end (length (head ++ rest)) (omega (arith, i.1, length-append head rest)),
        drop-append_le h.value_start head rest (omega (arith, i.0, i.1)),
        take-append_le (h.value_end - h.value_start) (drop h.value_start head) rest
            (omega (arith, i.1, length-drop h.value_start head)),
      )
      refl

module _ (R : ResponseMap) (header_name : Bytes → Option Bytes) where
  abbrev pub HasName : RawHeader → Type 0
  HasName h = (name : Bytes) × (header_name h.name ≡ some name)

  insert_named-ok :
      (head rest : Bytes) (h : RawHeader) (m : R.Map)
      → (n : HasName h) → IsInside head h
      → insert_named R header_name (head ++ rest) h m (header_name h.name)
        ≡ ok (R.insert m n.0 (value_of head h))
  unfolding insert_named
  insert_named-ok head rest h m n i = rw (n.1, insert_named, slice-value_of head rest h i) refl

  -- The map after the headers are inserted, one after the other.
  pub filled : (head : Bytes) (headers : List RawHeader) → All HasName headers → R.Map → R.Map
  filled head [] named m = m
  filled head (h ∷ headers) named m =
      filled head headers named.1 (R.insert m (named.0.0) (value_of head h))

  insert_headers-filled :
      (head rest : Bytes) (headers : List RawHeader) (m : R.Map) (named : All HasName headers)
      → All (IsInside head) headers
      → insert_headers R header_name (head ++ rest) headers m ≡ ok (filled head headers named m)
  unfolding insert_headers filled
  insert_headers-filled head rest [] m named inside = refl
  insert_headers-filled head rest (h ∷ headers) m named inside =
      rw (insert_named-ok head rest h m named.0 inside.0)
        (insert_headers-filled head rest headers _ named.1 inside.1)

  module _ (parse_headers : Bytes → Option Status) (head : Bytes) (headers : List RawHeader)
      (is_head : IsHead header_name parse_headers head headers) where
    abbrev pub head_map : R.Map → R.Map
    head_map m = filled head headers is_head.named m

    pub parse-pending :
        (front back : Bytes) (m : R.Map)
        → front ++ back ≡ head
        → 0 < length back
        → parse R header_name parse_headers front m ≡ ok (pending, m)
    unfolding parse on_status
    parse-pending front back m e more = rw (is_head.fronts front back e more) refl

    pub parse-parsed :
        (rest : Bytes) (m : R.Map)
        → parse R header_name parse_headers (head ++ rest) m ≡ ok (parsed rest, head_map m)
    unfolding parse on_status
    parse-parsed rest m =
        rw
          (
            is_head.whole rest,
            insert_headers-filled head rest headers m is_head.named is_head.inside,
            advance-append head rest,
          )
          refl

  filled-others :
      (head : Bytes) (headers : List RawHeader) (m : R.Map) (name : Bytes)
      (named : All HasName headers)
      → All (λ g. header_name g.name ≢ some name) headers
      → R.get_all (filled head headers named m) name ≡ R.get_all m name
  unfolding filled
  filled-others head [] m name named others = refl
  filled-others head (g ∷ headers) m name named others =
      filled-others head headers _ name named.1 others.1
      ∙ R.get_all-insert_ne m named.0.0 (value_of head g) name
          (λ same. others.0 (named.0.1 ∙ ap some (sym same)))

  -- A header that none with its name follows.
  filled-last :
      (head : Bytes) (h : RawHeader) (before after : List RawHeader) (m : R.Map) (name : Bytes)
      (named : All HasName (before ++ (h ∷ after)))
      → header_name h.name ≡ some name
      → All (λ g. header_name g.name ≢ some name) after
      → R.get_all (filled head (before ++ (h ∷ after)) named m) name ≡ value_of head h ∷ []
  unfolding filled
  filled-last head h (g ∷ before) after m name named e others =
      filled-last head h before after _ name named.1 e others
  filled-last head h [] after m name named e others =
      filled-others head after (R.insert m named.0.0 (value_of head h)) name named.1 others
      ∙ ap (R.get_all (R.insert m named.0.0 (value_of head h)))
          (some-injective _ _ (sym e ∙ named.0.1))
      ∙ R.get_all-insert m named.0.0 (value_of head h)

  -- Let httparse find a head with its headers whatever follows it, and report every shorter front
  -- of it as partial. If the head has several headers of one name, `parse` leaves the last value
  -- alone under that name: the others are lost.
  pub parse-last :
      (parse_headers : Bytes → Option Status) (head rest : Bytes) (before after : List RawHeader)
      (h : RawHeader) (m : R.Map) (name : Bytes)
      → IsHead header_name parse_headers head (before ++ (h ∷ after))
      → header_name h.name ≡ some name
      → All (λ g. header_name g.name ≢ some name) after
      → (m' : R.Map) × (parse R header_name parse_headers (head ++ rest) m ≡ ok (parsed rest, m'))
        × (R.get_all m' name ≡ value_of head h ∷ [])
  parse-last parse_headers head rest before after h m name is_head e others = (
    head_map parse_headers head (before ++ (h ∷ after)) is_head m,
    parse-parsed parse_headers head (before ++ (h ∷ after)) is_head rest m,
    filled-last head h before after m name is_head.named e others,
  )
