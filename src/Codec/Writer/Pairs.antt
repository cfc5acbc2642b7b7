-- ===== src/Codec/Writer/Pairs.antt =====
-- codec.rs: `encode_kvp` and `NameValuePairWriter` write the encodings of pairs as one stream.
use async_fcgi.Base.{ℕ, ◌+◌, ◌≤◌, ◌≡◌, refl, arith, false, inl, inr}
use async_fcgi.Base.{
  Bool-cases, List, [], ◌∷◌, ◌++◌, length, append-nil, append_assoc, drop, ltb, All, ltb-eq-false,
  not_ltb→le,
}
use async_fcgi.Bytes.{Bytes, as_u32, as_u8}
use async_fcgi.Fastcgi.Types.{RecordType}
use async_fcgi.Fastcgi.Header.{header_len}
use async_fcgi.Fastcgi.NameValuePair.{NameValuePair}
use async_fcgi.Fastcgi.NameValuePair.Laws.{encoding, length_field}
use async_fcgi.Fastcgi.NvBody.Drain.{encodings}
use async_fcgi.Base.Bits.{bit_or_top}
use async_fcgi.Codec.Io.{done, M, ◌>>=◌, return}
use async_fcgi.Codec.Io.Emits.{Emits}
use async_fcgi.Codec.Writer.{append_to_stream, encode_kvp, add_all, add, add_kv, flush, kv_stream}
use async_fcgi.Codec.Writer.{NameValuePairWriter, length_bytes}
use async_fcgi.Codec.Writer.Streams.{IsBuffer, Appends, bind-Appends, return-Appends, Stream}
use async_fcgi.Codec.Writer.Append.{append_to_stream-Appends, no_blank, blank-IsBuffer}
use async_fcgi.Codec.Writer.Data.{finish}

-- Both lengths have at most 31 bits.
abbrev pub IsEncodable : NameValuePair → Type 0
IsEncodable p = (length p.name_data ≤ 0x7fffffff) × (length p.value_data ≤ 0x7fffffff)

length_bytes-field :
    (blen : Bytes) (n : ℕ) → n ≤ 0x7fffffff → length_bytes blen n ≡ return (blen ++ length_field n)
unfolding length_bytes length_field
length_bytes-field blen n h = elim (Bool-cases (ltb 0x7f n)) [
  | inl long ↦ rw (long, ltb-eq-false 0x7fffffff n h, bit_or_top 31 n (omega arith), marked) refl
  | inr short ↦ rw (short, as_byte short) refl
]
  where
    marked : as_u32 (n + 0x80000000) ≡ n + 0x80000000
    marked = omega arith

    as_byte : ltb 0x7f n ≡ false → as_u8 n ≡ n
    as_byte short = omega (arith, not_ltb→le _ _ short)

module _ (blank : Bytes) (eight : length blank ≡ header_len) (request_id : ℕ)
    (rtype : RecordType) where
  abbrev pub writer : Bytes → NameValuePairWriter
  writer buf = record { request_id = request_id; rtype = rtype; buf = buf }

  -- What `add` does once the lengths are written.
  put_data : NameValuePairWriter → NameValuePair → Bytes → M NameValuePairWriter
  put_data kvw p blen = do
    buf1 ← append_to_stream blank blen kvw.buf kvw.request_id kvw.rtype
    buf2 ← append_to_stream blank p.name_data buf1 kvw.request_id kvw.rtype
    buf3 ← append_to_stream blank p.value_data buf2 kvw.request_id kvw.rtype
    return (record kvw { buf = buf3 })

  add-put_data :
      (kvw : NameValuePairWriter) (p : NameValuePair)
      → IsEncodable p
      → add blank kvw p
        ≡ put_data kvw p (length_field (length p.name_data) ++ length_field (length p.value_data))
  unfolding add add_kv put_data
  add-put_data kvw p h = rw (length_bytes-field [] (length p.name_data) h.0) second
    where
      second :
          (length_bytes (length_field (length p.name_data)) (length p.value_data)
            >>= put_data kvw p)
          ≡ put_data kvw p (length_field (length p.name_data) ++ length_field (length p.value_data))
      second =
          rw (length_bytes-field (length_field (length p.name_data)) (length p.value_data) h.1) refl

  put_data-Appends :
      (p : NameValuePair) (blen buf : Bytes)
      → IsBuffer buf
      → Appends writer request_id rtype
          ((drop header_len buf ++ blen) ++ (p.name_data ++ p.value_data))
          (put_data (writer buf) p blen)
  unfolding put_data
  put_data-Appends p blen buf b =
      bind-Appends id_of writer request_id rtype (drop header_len buf ++ blen)
        (p.name_data ++ p.value_data) _ _
        (append_to_stream-Appends blank eight request_id rtype blen buf b) put_name
    where
      id_of : Bytes → Bytes
      id_of x = x

      put_value :
          (buf2 : Bytes)
          → IsBuffer buf2
          → Appends writer request_id rtype (drop header_len buf2 ++ p.value_data) (
              append_to_stream blank p.value_data buf2 request_id rtype >>= λ buf3.
              return (writer buf3))
      put_value buf2 b2 = rw (append-nil (drop header_len buf2 ++ p.value_data)) at (
          bind-Appends id_of writer request_id rtype (drop header_len buf2 ++ p.value_data) [] _
            (λ buf3. return (writer buf3))
            (append_to_stream-Appends blank eight request_id rtype p.value_data buf2 b2)
            (λ buf3 b3.
              rw (append-nil (drop header_len buf3))
                (return-Appends writer request_id rtype buf3 b3)))

      put_name :
          (buf1 : Bytes)
          → IsBuffer buf1
          → Appends writer request_id rtype
              (drop header_len buf1 ++ (p.name_data ++ p.value_data))
              (append_to_stream blank p.name_data buf1 request_id rtype >>= λ buf2.
                append_to_stream blank p.value_data buf2 request_id rtype >>= λ buf3.
                return (writer buf3))
      put_name buf1 b1 = rw (append_assoc (drop header_len buf1) p.name_data p.value_data) at (
          bind-Appends id_of writer request_id rtype (drop header_len buf1 ++ p.name_data)
            p.value_data _
            (λ buf2. append_to_stream blank p.value_data buf2 request_id rtype >>= λ buf3.
              return (writer buf3))
            (append_to_stream-Appends blank eight request_id rtype p.name_data buf1 b1) put_value)

  add-Appends :
      (p : NameValuePair) (buf : Bytes)
      → IsEncodable p
      → IsBuffer buf
      → Appends writer request_id rtype
          (drop header_len buf ++ encoding p)
          (add blank (writer buf) p)
  unfolding encoding
  add-Appends p buf h b = rw (add-put_data (writer buf) p h, ← same) (put_data-Appends p _ buf b)
    where
      same :
          (drop header_len buf
              ++ (length_field (length p.name_data) ++ length_field (length p.value_data)))
            ++ (p.name_data ++ p.value_data)
          ≡ drop header_len buf ++ encoding p
      same = simp append_assoc

  add_all-Appends :
      (ps : List NameValuePair) (buf : Bytes)
      → All IsEncodable ps
      → IsBuffer buf
      → Appends writer request_id rtype
          (drop header_len buf ++ encodings ps)
          (add_all blank (writer buf) ps)
  unfolding add_all
  add_all-Appends [] buf h b =
      rw (append-nil (drop header_len buf)) (return-Appends writer request_id rtype buf b)
  add_all-Appends (p ∷ ps) buf h b =
      rw (← (append_assoc (drop header_len buf) (encoding p) (encodings ps))) (
        bind-Appends writer writer request_id rtype (drop header_len buf ++ encoding p)
          (encodings ps) _ _ (add-Appends p buf h.0 b) (λ buf' b'. add_all-Appends ps buf' h.1 b'))

  -- A new writer that is given these pairs.
  pub kv_stream-Appends :
      (ps : List NameValuePair)
      → All IsEncodable ps
      → Appends writer request_id rtype
          (encodings ps)
          (add_all blank (kv_stream blank request_id rtype) ps)
  unfolding kv_stream
  kv_stream-Appends ps h =
      rw (no_blank blank eight request_id rtype) at
        (add_all-Appends ps blank h (blank-IsBuffer blank eight request_id rtype))

  -- With eight bytes as the place of the header, and pairs whose names and values have at most
  -- 0x7fffffff bytes, `encode_kvp` writes one stream of records, as for `encode_data`, whose
  -- contents are the encodings of the pairs, one behind the other. If the socket fails or blocks,
  -- a front of just these bytes is written and the call does not end well.
  pub encode_kvp-Stream :
      (ps : List NameValuePair)
      → All IsEncodable ps
      → (out : Bytes) × Emits (encode_kvp blank request_id rtype ps) out (done tt)
        × Stream request_id rtype (encodings ps) out
  unfolding encode_kvp flush
  encode_kvp-Stream ps h =
      finish writer request_id rtype (encodings ps) _ _ (λ buf. refl) (kv_stream-Appends ps h)
