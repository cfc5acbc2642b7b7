-- ===== src/Codec/Writer/Data.antt =====
-- codec.rs: `encode_data` and `encode_kvp` write whole streams.
use async_fcgi.Base.{ℕ, ◌≡◌, refl}
use async_fcgi.Base.{◌++◌, length}
use async_fcgi.Bytes.{Bytes}
use async_fcgi.Fastcgi.Types.{RecordType}
use async_fcgi.Fastcgi.Header.{header_len}
use async_fcgi.Codec.Io.{done, M, ◌>>=◌}
use async_fcgi.Codec.Io.Emits.{Emits, bind-Emits}
use async_fcgi.Codec.Writer.{end_stream, encode_data}
use async_fcgi.Codec.Writer.Streams.{Appends, Stream, Records-Stream}
use async_fcgi.Codec.Writer.Append.{append_to_stream-Appends, no_blank, blank-IsBuffer}
use async_fcgi.Codec.Writer.End.{end_stream-Emits}

-- A block that appends to a stream, and then ends it.
pub finish :
    {A : Type 0} (at : Bytes → A) (request_id : ℕ) (rtype : RecordType) (unsent : Bytes) (m : M A)
    (f : A → M (Unit {0}))
    → ((buf : Bytes) → f (at buf) ≡ end_stream buf request_id rtype)
    → Appends at request_id rtype unsent m
    → (out : Bytes) × Emits (m >>= f) out (done tt) × Stream request_id rtype unsent out
finish at request_id rtype unsent m f same a =
    let (out, e, s) = end_stream-Emits a.buf request_id rtype a.is_buffer in
    (
      a.out ++ out,
      bind-Emits m f a.out out a.emits (rw (same a.buf) e),
      rw (a.same_data) (Records-Stream a.records s),
    )

module _ (blank : Bytes) (eight : length blank ≡ header_len) (request_id : ℕ)
    (rtype : RecordType) where
  -- With eight bytes as the place of the header, `encode_data` writes its data as one stream:
  -- records of this type and request, none of them empty or over 65528 bytes, with their padding,
  -- whose contents make up the data, and one empty record at the end. If the socket fails or
  -- blocks, a front of just these bytes is written and the call does not end well.
  pub encode_data-Stream :
      (bytes : Bytes)
      → (out : Bytes) × Emits (encode_data blank request_id rtype bytes) out (done tt)
        × Stream request_id rtype bytes out
  unfolding encode_data
  encode_data-Stream bytes =
      finish (λ x. x) request_id rtype bytes _ _ (λ buf. refl)
        (rw (no_blank blank eight request_id rtype) at (
          append_to_stream-Appends blank eight request_id rtype bytes blank
            (blank-IsBuffer blank eight request_id rtype)))
