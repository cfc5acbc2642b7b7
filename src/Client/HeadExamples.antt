-- ===== src/Client/HeadExamples.antt =====
-- httpparse.rs and client/connection.rs: heads of responses at which the theorems apply.
use async_fcgi.Base.{ℕ, ◌≡◌, ◌≢◌, refl, ap, ap₂, arith, true, false, List, [], ◌∷◌, ◌++◌, Option}
use async_fcgi.Base.{
  some, ◌==◌, leb, if◌then◌else◌, length, length-append, inl, inr, Bool-cases, le→leb, ◌<◌,
}
use async_fcgi.Base.Result.{ok}
use async_fcgi.Bytes.{Bytes}
use async_fcgi.Httpparse.{ResponseMap, RawHeader, Status, complete, partial, parsed, parse}
use async_fcgi.Httpparse.Laws.{IsHead, parse-last}
use async_fcgi.Client.ConPool.{same_bytes, parse_int}
use async_fcgi.Client.Response.Head.{
  status_key, create_response, IsFound, create_response-IsFound, create_response_cut,
}

same_bytes_refl : (key : Bytes) → same_bytes key key ≡ true
unfolding same_bytes
same_bytes_refl [] = refl
same_bytes_refl (c ∷ key) = ground (arith, same_bytes_refl key)

false-ne-true : false ≢ true
false-ne-true e = cc

leb-eq-false : (m n : ℕ) → n < m → leb m n ≡ false
leb-eq-false m n h = ground arith

same_bytes-eq : (xs ys : Bytes) → same_bytes xs ys ≡ true → xs ≡ ys
unfolding same_bytes
same_bytes-eq [] [] e = refl
same_bytes-eq [] (y ∷ ys) e = cc
same_bytes-eq (x ∷ xs) [] e = cc
same_bytes-eq (x ∷ xs) (y ∷ ys) e = elim (Bool-cases (x == y)) [
  | inl same ↦ ap₂ ◌∷◌ (ground arith) (same_bytes-eq xs ys (rw (same) at e))
  | inr other ↦ absurd (false-ne-true (rw (other) at e))
]

-- A map is the function from its keys to their values.
map_insert : (Bytes → List Bytes) → Bytes → Bytes → Bytes → List Bytes
map_insert m key val other = if same_bytes other key then val ∷ [] else m other

map_insert_ne :
    (m : Bytes → List Bytes) (key val other : Bytes)
    → other ≢ key
    → map_insert m key val other ≡ m other
unfolding map_insert
map_insert_ne m key val other ne = elim (Bool-cases (same_bytes other key)) [
  | inl same ↦ absurd (ne (same_bytes-eq other key same))
  | inr different ↦ rw (different) refl
]

map_insert_self : (m : Bytes → List Bytes) (key val : Bytes) → map_insert m key val key ≡ val ∷ []
unfolding map_insert
map_insert_self m key val = rw (same_bytes_refl key) refl

abbrev response_map : ResponseMap
response_map = record {
  Map = Bytes → List Bytes;
  empty = λ key. [];
  insert = map_insert;
  get_all = λ m key. m key;
  get_all-empty = λ key. refl;
  get_all-insert = map_insert_self;
  get_all-insert_ne = map_insert_ne;
}

-- A head of one line, `204` and its end.
abbrev head : Bytes
head = 50 ∷ 48 ∷ 52 ∷ 10 ∷ []

abbrev status_header : RawHeader
status_header = record { name = status_key; value_start = 0; value_end = 3 }

parse_headers : Bytes → Option Status
parse_headers bytes =
    if leb 4 (length bytes) then some (complete 4 (status_header ∷ [])) else some partial

abbrev header_name : Bytes → Option Bytes
header_name name = some name

head-IsHead : IsHead header_name parse_headers head (status_header ∷ [])
unfolding parse_headers
head-IsHead = record {
  fronts = λ front back e more.
      rw (leb-eq-false 4 (length front) (omega (arith, ap length e, length-append front back)))
        refl;
  whole = λ rest. rw (le→leb 4 (length (head ++ rest)) (omega arith)) refl;
  named = ((status_key, refl), tt);
  inside = (omega arith, tt);
}

create_response-IsFound_example :
    IsFound response_map header_name parse_headers
      (parse_int 16)
      head
      (status_header ∷ [])
      head-IsHead
      response_map.empty
      (97 ∷ 98 ∷ [])
      (create_response response_map header_name parse_headers
        (parse_int 16)
        ((50 ∷ []) ∷ (48 ∷ 52 ∷ 10 ∷ 97 ∷ []) ∷ (98 ∷ []) ∷ []))
create_response-IsFound_example =
    create_response-IsFound response_map header_name parse_headers (parse_int 16) head
      (status_header ∷ []) head-IsHead ((50 ∷ []) ∷ (48 ∷ 52 ∷ 10 ∷ 97 ∷ []) ∷ (98 ∷ []) ∷ [])
      (97 ∷ 98 ∷ []) refl (omega arith)

create_response_cut_example :
    create_response response_map header_name parse_headers
      (parse_int 16)
      ((50 ∷ []) ∷ (48 ∷ []) ∷ [])
    ≡ ok (record { status = 200; headers = response_map.empty; bodydata = []; frames = [] })
create_response_cut_example =
    create_response_cut response_map header_name parse_headers (parse_int 16) head
      (status_header ∷ []) head-IsHead ((50 ∷ []) ∷ (48 ∷ []) ∷ []) (52 ∷ 10 ∷ []) refl
      (omega arith)

-- Two headers of one name.
abbrev first_status : RawHeader
first_status = record { name = status_key; value_start = 1; value_end = 3 }

parse_two : Bytes → Option Status
parse_two bytes =
    if leb 4 (length bytes)
    then some (complete 4 (first_status ∷ status_header ∷ []))
    else some partial

two-IsHead : IsHead header_name parse_two head (first_status ∷ status_header ∷ [])
unfolding parse_two
two-IsHead = record {
  fronts = λ front back e more.
      rw (leb-eq-false 4 (length front) (omega (arith, ap length e, length-append front back)))
        refl;
  whole = λ rest. rw (le→leb 4 (length (head ++ rest)) (omega arith)) refl;
  named = ((status_key, refl), ((status_key, refl), tt));
  inside = (omega arith, (omega arith, tt));
}

parse-last_example :
    (m' : response_map.Map) × (parse response_map header_name parse_two
        (head ++ (97 ∷ []))
        response_map.empty
      ≡ ok (parsed (97 ∷ []), m'))
    × (m' status_key ≡ (50 ∷ 48 ∷ 52 ∷ []) ∷ [])
parse-last_example =
    parse-last response_map header_name parse_two head (97 ∷ []) (first_status ∷ []) []
      status_header response_map.empty status_key two-IsHead refl tt
