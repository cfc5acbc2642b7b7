-- ===== src/Fastcgi/Record/Write.antt =====
-- fastcgi.rs: records that are written and read back, and the chunks of `STDINBody::new`.
use async_fcgi.Base.{ℕ, ◌-◌, ◌≤◌, ◌≡◌, refl, ap, sym, ◌∙◌, arith, some}
use async_fcgi.Base.{◌++◌, length, append_assoc, take, min}
use async_fcgi.Base.{take-append-drop, length-take, length-drop}
use async_fcgi.Base.Result.{Res, ok, ◌>>=◌}
use async_fcgi.Bytes.{Bytes, IsU16}
use async_fcgi.BufVec.{BufList, IsProper}
use async_fcgi.BufVec.Laws.{contents}
use async_fcgi.Fastcgi.Types.{RecordType}
use async_fcgi.Fastcgi.Header.{Header, IsWire, padding, padding-bounds, write_into-bytes}
use async_fcgi.Fastcgi.Header
use async_fcgi.Fastcgi.NvBody.{NvBody, from_bytes, max_length}
use async_fcgi.Fastcgi.NvBody.Laws.{IsValid}
use async_fcgi.Fastcgi.NvBody.Drain.{CopiesBytes, drain-contents}
use async_fcgi.Fastcgi.Record.{Body, parse_body, read, append, to_record, nv_record_body, new_stdin}
use async_fcgi.Fastcgi.Record.{append_body, append_pairs}
use async_fcgi.Fastcgi.Record.Read.{frame, read-frame}

-- The header that `to_record` makes.
abbrev pub nv_header : NvBody → RecordType → ℕ → Header
nv_header b rtype request_id = Header.new rtype request_id b.len

nv_header-IsWire :
    (b : NvBody) (rtype : RecordType) (request_id : ℕ)
    → IsValid b
    → IsU16 request_id
    → IsWire (nv_header b rtype request_id)
unfolding Header.new
nv_header-IsWire b rtype id v u = omega (arith, padding-bounds b.len)

-- Written and parsed, a body has the bytes that it was filled with.
parse_body-nv :
    (rtype : RecordType) (b : NvBody) (body : Body) (cs : Bytes)
    → nv_record_body b rtype ≡ ok body
    → parse_body cs rtype ≡ nv_record_body (from_bytes cs) rtype
unfolding parse_body nv_record_body
parse_body-nv RecordType.params b body cs e = refl
parse_body-nv RecordType.get_values b body cs e = refl
parse_body-nv RecordType.get_values_result b body cs e = refl
parse_body-nv _ b body cs e = cc

module _ (copy : BufList → ℕ → Res Bytes) (advance_mut : Bytes → ℕ → Res Bytes) where
  append-nv :
      (rtype : RecordType) (b : NvBody) (body : Body) (h : Header) (buf : Bytes)
      → nv_record_body b rtype ≡ ok body
      → append_body copy advance_mut body h buf ≡ append_pairs copy advance_mut h b buf
  unfolding nv_record_body append_body
  append-nv RecordType.params b body h buf e = ground arith
  append-nv RecordType.get_values b body h buf e = ground arith
  append-nv RecordType.get_values_result b body h buf e = ground arith
  append-nv _ b body h buf e = cc

to_record-nv :
    (b : NvBody) (rtype : RecordType) (request_id : ℕ) (body : Body)
    → nv_record_body b rtype ≡ ok body
    → to_record b rtype request_id
      ≡ ok (record { header = nv_header b rtype request_id; body = body })
unfolding to_record Header.new
to_record-nv b rtype request_id body e = rw (e, to_record) refl

-- Let `copy_to_bytes` take the front of a list without empty buffers. A body of pairs that is
-- valid and has no empty buffer is turned by `to_record` into a record of one of the three types
-- for pairs with a request id of 16 bits, and appended to a buffer in which `advance_mut` finds
-- room for the padding behind the header and the pairs. The bytes of the buffer stay as they
-- were. The new bytes are read back as a record with the same header, and with a body that is
-- made of the same bytes; what follows them is left.
pub read-append-to_record :
    (copy : BufList → ℕ → Res Bytes) (advance_mut : Bytes → ℕ → Res Bytes)
    → CopiesBytes copy
    → (b : NvBody) (rtype : RecordType) (request_id : ℕ) (body : Body) (buf pad rest : Bytes)
    → IsValid b
    → IsProper b.pairs
    → IsU16 request_id
    → nv_record_body b rtype ≡ ok body
    → length pad ≡ padding b.len
    → advance_mut
        ((buf ++ Header.bytes (nv_header b rtype request_id)) ++ contents b.pairs)
        (padding b.len)
      ≡ ok (((buf ++ Header.bytes (nv_header b rtype request_id)) ++ contents b.pairs) ++ pad)
    → (out : Bytes) × ((to_record b rtype request_id >>= λ r. append copy advance_mut r buf)
        ≡ ok (buf ++ out))
      × (read (out ++ rest) ≡ (
          nv_record_body (from_bytes (contents b.pairs)) rtype >>= λ body'.
          ok (some (record { header = nv_header b rtype request_id; body = body' }), rest)))
unfolding append append_pairs Header.new
read-append-to_record copy advance_mut copies b rtype request_id body buf pad rest v p u e fills
      room =
    let h = nv_header b rtype request_id in
    (
      frame h (contents b.pairs) pad,
      rw
          (
            to_record-nv b rtype request_id body e,
            append-nv copy advance_mut rtype b body h buf e,
            drain-contents copy copies b v p,
            write_into-bytes h buf,
            room,
          )
          (simp append_assoc),
      read-frame h (contents b.pairs) pad rest (record {
        wire = nv_header-IsWire b rtype request_id v u;
        content_fits = sym v.counted;
        padding_fits = fills;
      })
          ∙ rw (parse_body-nv rtype b body (contents b.pairs) e) refl,
    )

-- `STDINBody::new` takes the next bytes as the content of its record, with their number in the
-- header, as many as fit one record, and leaves exactly the others.
new_stdin-split :
    (request_id : ℕ) (b : Bytes)
    → let (r, left) = new_stdin request_id b in
      (taken : Bytes) × (r.body ≡ Body.std_in taken)
      × (taken ++ left ≡ b)
      × (r.header ≡ Header.new RecordType.std_in request_id (length taken))
      × (length taken ≤ max_length)
      × (length left ≡ length b - max_length)
unfolding new_stdin
new_stdin-split request_id b =
    let n = min max_length (length b) in
    let taken_length = length-take n b (omega arith) in
    (
      take n b,
      refl,
      take-append-drop n b,
      ap (Header.new RecordType.std_in request_id) (omega (arith, taken_length)),
      omega (arith, taken_length),
      omega (arith, length-drop n b),
    )
