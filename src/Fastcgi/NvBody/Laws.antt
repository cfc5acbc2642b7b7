-- ===== src/Fastcgi/NvBody/Laws.antt =====
-- fastcgi.rs: `NVBody::add` against the encoding of a pair, and the limit of a record.
use async_fcgi.Base.{ℕ, ◌+◌, ◌≤◌, ◌<◌, ◌≡◌, refl, sym, ◌∙◌, arith, true, false, inl, inr}
use async_fcgi.Base.{[], ◌∷◌, ◌++◌, length, length-append, append_assoc, append-nil, bit_or}
use async_fcgi.Base.{ltb, ltb→lt, leb→le, if◌then◌else◌, Bool-cases}
use async_fcgi.Base.Bits.{bit_or_top}
use async_fcgi.Bytes.{Bytes, be_u32, as_u8, as_u32}
use async_fcgi.BufVec.{IsProper}
use async_fcgi.BufVec
use async_fcgi.BufVec.Laws.{contents, contents-push, push-IsProper}
use async_fcgi.Fastcgi.NameValuePair.{NameValuePair}
use async_fcgi.Fastcgi.NameValuePair
use async_fcgi.Fastcgi.NameValuePair.Laws.{encoding, length_field, length-encoding}
use async_fcgi.Fastcgi.NvBody.{NvBody, max_length, new, fits, add, added, refused, push_pair}
use async_fcgi.Fastcgi.NvBody.{put_length}

-- `len` counts the bytes of the pairs, and they fit one record.
pub record IsValid (b : NvBody) : Type 0 where
  pub counted : b.len ≡ length (contents b.pairs)
  pub bounded : b.len ≤ max_length

pub new-IsValid : IsValid new
unfolding new BufVec.new
new-IsValid = omega arith

mark : ℕ → ℕ
mark n = if ltb 0x7f n then bit_or n 0x80000000 else n

put_length-pos : (buf : Bytes) (n : ℕ) → 0 < length (put_length buf n)
unfolding put_length
put_length-pos buf n =
    ground (arith, length-append buf (be_u32 (as_u32 n)), length-append buf ((as_u8 n) ∷ []))

put_length-mark :
    (buf : Bytes) (n : ℕ) → n ≤ max_length → put_length buf (mark n) ≡ buf ++ length_field n
unfolding put_length mark length_field
put_length-mark buf n h = ground (arith, bit_or_top 31 n)

-- The header that `add` writes is the two length fields.
header_lem :
    (ln lv : ℕ)
    → ln ≤ max_length
    → lv ≤ max_length
    → put_length (put_length [] (mark ln)) (mark lv) ≡ length_field ln ++ length_field lv
header_lem ln lv h k = rw (put_length-mark [] ln h) (put_length-mark (length_field ln) lv k)

value_length_zero : (v : Bytes) → ltb 0 (length v) ≡ false → v ≡ []
value_length_zero [] h = refl
value_length_zero (x ∷ v) h = ground arith

mark_pos : (n : ℕ) → n ≤ max_length → ltb 0 (mark n) ≡ ltb 0 n
unfolding mark
mark_pos n h = ground (arith, bit_or_top 31 n)

contents-push_pair :
    (b : NvBody) (pair : NameValuePair)
    → length pair.name_data ≤ max_length
    → length pair.value_data ≤ max_length
    → contents
        (push_pair b pair (mark (length pair.name_data)) (mark (length pair.value_data))).0.pairs
      ≡ contents b.pairs ++ encoding pair
unfolding push_pair encoding
contents-push_pair b pair h k =
    let n = pair.name_data in
    let v = pair.value_data in
    let head = header_lem (length n) (length v) h k in
    elim (Bool-cases (ltb 0 (length v))) [
      | inl some_value ↦
          rw (mark_pos (length v) k, some_value, contents-push, contents-push, contents-push, head)
            (simp append_assoc)
      | inr no_value ↦
          rw (mark_pos (length v) k, no_value, contents-push, contents-push, head)
            (rw (value_length_zero v no_value) (simp (append_assoc, append-nil)))
    ]

add-push_pair :
    (b : NvBody) (pair : NameValuePair)
    → NameValuePair.len pair + b.len ≤ max_length
    → add b pair
      ≡ push_pair
          (record b { len = NameValuePair.len pair + b.len })
          pair
          (mark (length pair.name_data))
          (mark (length pair.value_data))
unfolding add mark NameValuePair.len
add-push_pair b pair h = ground arith

data_le_len :
    (pair : NameValuePair) → length pair.name_data + length pair.value_data ≤ NameValuePair.len pair
unfolding NameValuePair.len
data_le_len pair = ground arith

fits-le :
    (b : NvBody) (pair : NameValuePair)
    → fits b pair ≡ true
    → NameValuePair.len pair + b.len ≤ max_length
unfolding fits
fits-le b pair h = leb→le _ _ h

-- A pair that does not fit is refused, and the body stays as it was.
pub add_full : (b : NvBody) (pair : NameValuePair) → fits b pair ≡ false → add b pair ≡ (b, refused)
unfolding fits add
add_full b pair h = ground arith

push_pair-IsProper :
    (b : NvBody) (pair : NameValuePair) (ln lv : ℕ)
    → IsProper b.pairs
    → 0 < length pair.name_data
    → (ltb 0 lv ≡ true → 0 < length pair.value_data)
    → IsProper (push_pair b pair ln lv).0.pairs
unfolding push_pair
push_pair-IsProper b pair ln lv p named valued =
    let header = put_length (put_length [] ln) lv in
    let p1 = push-IsProper b.pairs header p (put_length-pos (put_length [] ln) lv) in
    let p2 = push-IsProper (BufVec.push b.pairs header) pair.name_data p1 named in
    elim (Bool-cases (ltb 0 lv)) [
      | inl some_value ↦ rw some_value (push-IsProper _ pair.value_data p2 (valued some_value))
      | inr no_value ↦ rw no_value p2
    ]

-- A body of pairs that have names holds no empty buffer.
pub add-IsProper :
    (b : NvBody) (pair : NameValuePair)
    → IsProper b.pairs
    → 0 < length pair.name_data
    → IsProper (add b pair).0.pairs
add-IsProper b pair p named = elim (Bool-cases (fits b pair)) [
  | inl h ↦
      let room = fits-le b pair h in
      rw (add-push_pair b pair room) (
        push_pair-IsProper _ pair _ _ p named λ valued.
          ltb→lt 0 _
            (sym (mark_pos (length pair.value_data) (omega (arith, data_le_len pair))) ∙ valued))
  | inr h ↦ rw (add_full b pair h) p
]

-- What `add` leaves behind when it accepts a pair.
pub record IsExtended (b : NvBody) (pair : NameValuePair) (b' : NvBody) : Type 0 where
  pub appended : contents b'.pairs ≡ contents b.pairs ++ encoding pair
  pub longer : b'.len ≡ b.len + NameValuePair.len pair

-- A pair that fits is added, its encoding goes behind the bytes of the body, and the length grows
-- by the length of the pair.
pub add-fits :
    (b : NvBody) (pair : NameValuePair)
    → fits b pair ≡ true
    → ((add b pair).1 ≡ added) × IsExtended b pair (add b pair).0
add-fits b pair h =
    let room = fits-le b pair h in
    rw (add-push_pair b pair room) (
      unfold push_pair in refl,
      record {
        appended =
            contents-push_pair _ pair (omega (arith, data_le_len pair))
              (omega (arith, data_le_len pair));
        longer = unfold push_pair in omega arith;
      },
    )

-- `NVBody::add`, whether it takes or refuses the pair, keeps the length equal to the number of
-- bytes held and within the limit of a record.
pub add-IsValid : (b : NvBody) (pair : NameValuePair) → IsValid b → IsValid (add b pair).0
add-IsValid b pair v = elim (Bool-cases (fits b pair)) [
  | inl h ↦
      let e = (add-fits b pair h).1 in
      record {
        counted =
            e.longer
            ∙ rw (e.appended, length-append (contents b.pairs) (encoding pair))
                (omega (arith, v.counted, length-encoding pair));
        bounded = rw (e.longer) (omega (arith, fits-le b pair h));
      }
  | inr h ↦ rw (add_full b pair h) v
]
