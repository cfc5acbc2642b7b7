-- ===== src/Fastcgi/PairExamples.antt =====
-- fastcgi.rs and bufvec.rs: pairs, bodies and buffers at which the theorems apply.
use async_fcgi.Base.{ℕ, zero, suc, ◌+◌, ◌≡◌, refl, arith, some, [], ◌∷◌, ◌++◌}
use async_fcgi.Base.{length, take, leb, if◌then◌else◌, le→leb, All}
use async_fcgi.Base.Result.{Res, ok, panic, ◌>>=◌}
use async_fcgi.Bytes.{Bytes}
use async_fcgi.BufVec.{BufList, IsProper, remaining}
use async_fcgi.BufVec.Laws.{contents}
use async_fcgi.Fastcgi.Types.{RecordType}
use async_fcgi.Fastcgi.Header.{padding}
use async_fcgi.Fastcgi.Header
use async_fcgi.Fastcgi.NameValuePair.{NameValuePair, param_length}
use async_fcgi.Fastcgi.NameValuePair
use async_fcgi.Fastcgi.NameValuePair.Laws.{param_length_long}
use async_fcgi.Fastcgi.NvBody.{NvBody, add, from_bytes}
use async_fcgi.Fastcgi.NvBody
use async_fcgi.Fastcgi.NvBody.Laws.{IsValid, add-IsValid, new-IsValid, add-IsProper}
use async_fcgi.Fastcgi.NvBody.Drain.{CopiesBytes}
use async_fcgi.Fastcgi.NvBodyList.{NvBodyList, from_iter}
use async_fcgi.Fastcgi.NvBodyList.Laws.{from_iter-Split, Split, pairs_of, IsSendable}
use async_fcgi.Fastcgi.Record.{Body, read, append, to_record, nv_record_body}
use async_fcgi.Fastcgi.Record.Write.{nv_header, read-append-to_record}
use async_fcgi.Fastcgi.Examples.{abc}

-- `copy_to_bytes` as the crate `bytes` documents it.
pub copy_to_bytes : BufList → ℕ → Res Bytes
copy_to_bytes l n = if leb n (remaining l) then ok (take n (contents l)) else panic

pub copy_to_bytes-CopiesBytes : CopiesBytes copy_to_bytes
unfolding copy_to_bytes
copy_to_bytes-CopiesBytes l n p h = rw (le→leb n (remaining l) h) refl

zeros : ℕ → Bytes
zeros zero = []
zeros (suc n) = 0 ∷ zeros n

-- `advance_mut` of a buffer with a capacity of 64 bytes.
advance_mut : Bytes → ℕ → Res Bytes
advance_mut buf n = if leb (length buf + n) 64 then ok (buf ++ zeros n) else panic

abbrev pair : NameValuePair
pair = record { name_data = 65 ∷ 66 ∷ []; value_data = abc }

abbrev body : NvBody
body = (add NvBody.new pair).0

body-IsValid : IsValid body
body-IsValid = add-IsValid NvBody.new pair new-IsValid

body-IsProper : IsProper body.pairs
unfolding NvBody.new
body-IsProper = add-IsProper NvBody.new pair tt (omega arith)

abbrev padded : Bytes
padded = 0 ∷ []

body-padding : length padded ≡ padding body.len
unfolding add NvBody.new NameValuePair.len padding
body-padding = refl

abbrev written : Bytes
written = ((9 ∷ []) ++ Header.bytes (nv_header body RecordType.params 1)) ++ contents body.pairs

body-room : advance_mut written (padding body.len) ≡ ok (written ++ padded)
unfolding advance_mut zeros add NvBody.new NameValuePair.len padding Header.bytes
body-room = refl

read-append-to_record_example :
    (out : Bytes) × ((to_record body RecordType.params 1 >>= λ r.
    append copy_to_bytes advance_mut r (9 ∷ []))
      ≡ ok ((9 ∷ []) ++ out))
    × (read (out ++ (7 ∷ [])) ≡ (
        nv_record_body (from_bytes (contents body.pairs)) RecordType.params >>= λ body'.
        ok (some (record { header = nv_header body RecordType.params 1; body = body' }), 7 ∷ [])))
read-append-to_record_example =
    read-append-to_record copy_to_bytes advance_mut copy_to_bytes-CopiesBytes body RecordType.params
      1 (Body.params body) (9 ∷ []) padded (7 ∷ []) body-IsValid body-IsProper (omega arith)
      (unfold nv_record_body in refl) body-padding body-room

sendable : All IsSendable (pairs_of ((65 ∷ [], abc) ∷ (66 ∷ [], []) ∷ []))
unfolding NameValuePair.len NameValuePair.new
sendable = ((omega arith, omega arith), ((omega arith, omega arith), tt))

from_iter-Split_example :
    (l : NvBodyList) × (from_iter ((65 ∷ [], abc) ∷ (66 ∷ [], []) ∷ []) ≡ ok l)
    × Split l.bodies (pairs_of ((65 ∷ [], abc) ∷ (66 ∷ [], []) ∷ []))
from_iter-Split_example = from_iter-Split ((65 ∷ [], abc) ∷ (66 ∷ [], []) ∷ []) sendable

param_length_long_example : param_length (3 ∷ 128 ∷ 0 ∷ 1 ∷ 44 ∷ []) 1 ≡ panic
param_length_long_example =
    param_length_long (3 ∷ 128 ∷ 0 ∷ 1 ∷ 44 ∷ []) 1 128 refl (omega arith) (omega arith)

abbrev two_bufs : BufList
two_bufs = record { bufs = (1 ∷ 2 ∷ []) ∷ (3 ∷ 4 ∷ []) ∷ [] }
