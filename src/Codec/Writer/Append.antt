-- ===== src/Codec/Writer/Append.antt =====
-- codec.rs: `append_to_stream` writes full records and keeps the rest.
use async_fcgi.Base.{ℕ, zero, suc, ◌+◌, ◌-◌, ◌<◌, ◌≡◌, refl, ap, sym, arith, inl, inr}
use async_fcgi.Base.{
  Bool-cases, [], ◌++◌, length, length-append, append-nil, append_assoc, take, drop,
}
use async_fcgi.Base.{
  take-append-drop, drop_all, drop-append_le, length-take, length-drop, ltb, ltb→lt, not_ltb→le,
}
use async_fcgi.Bytes.{Bytes, as_u16}
use async_fcgi.Fastcgi.Types.{RecordType}
use async_fcgi.Fastcgi.Header.{Header, header_len, padding}
use async_fcgi.Fastcgi.Header
use async_fcgi.Fastcgi.Record.Read.{frame}
use async_fcgi.Codec.Io.{M, ◌>>◌, write_whole_buf}
use async_fcgi.Codec.Io.Emits.{bind-Emits, write_whole_buf-Emits}
use async_fcgi.Codec.Writer.{buf_len, overwrite, append_loop, append_to_stream}
use async_fcgi.Codec.Writer.Streams.{
  max_content, cons, IsBuffer, Appends, return-Appends, header_out,
}

-- A full record, of what the buffer holds and a part of the value, and then the rest.
full_record :
    (buf part rest unsent : Bytes) (request_id : ℕ) (rtype : RecordType) (m : M Bytes)
    → IsBuffer buf
    → length buf + length part ≡ buf_len
    → unsent ≡ drop header_len buf ++ (part ++ rest)
    → Appends (λ x. x) request_id rtype rest m
    → Appends
        (λ x. x)
        request_id
        rtype
        unsent
        (write_whole_buf
            (overwrite (Header.new rtype request_id (as_u16 (buf_len - header_len))) buf)
          >> (write_whole_buf part >> m))
unfolding overwrite
full_record buf part rest unsent request_id rtype m b full same a = record {
  sent = content ++ a.sent;
  out = overwrite h buf ++ (part ++ a.out);
  buf = a.buf;
  emits =
      bind-Emits (write_whole_buf (overwrite h buf)) _ (overwrite h buf) (part ++ a.out)
        (write_whole_buf-Emits (overwrite h buf))
        (bind-Emits (write_whole_buf part) _ part a.out (write_whole_buf-Emits part) a.emits);
  records = rw (same_out) at (
      cons content [] (omega (arith, full_length)) (omega (arith, full_length))
        (rw (full_length) (unfold padding in refl)) a.records);
  is_buffer = a.is_buffer;
  same_data = rw (same, a.same_data) (simp append_assoc);
}
  where
    h : Header
    h = Header.new rtype request_id max_content

    content : Bytes
    content = drop header_len buf ++ part

    full_length : length content ≡ max_content
    full_length =
        omega
          (arith, b.has_head, length-drop header_len buf, length-append (drop header_len buf) part)

    same_out :
        frame (Header.new rtype request_id (length content)) content [] ++ a.out
        ≡ overwrite h buf ++ (part ++ a.out)
    same_out =
        rw (full_length, header_out h, append-nil (drop header_len buf ++ part)) (simp append_assoc)

module _ (blank : Bytes) (eight : length blank ≡ header_len) (request_id : ℕ)
    (rtype : RecordType) where
  pub blank-IsBuffer : IsBuffer blank
  blank-IsBuffer = record { has_head = omega arith; has_room = omega arith }

  pub no_blank : drop header_len blank ≡ []
  no_blank = drop_all header_len blank (omega arith)

  append_loop-Appends :
      (fuel : ℕ) (val buf : Bytes)
      → IsBuffer buf
      → 0 < fuel
      → length val + length buf < fuel + buf_len
      → Appends
          (λ x. x)
          request_id
          rtype
          (drop header_len buf ++ val)
          (append_loop blank fuel val buf request_id rtype)
  unfolding append_loop overwrite
  append_loop-Appends zero val buf b h k = absurd (omega arith)
  append_loop-Appends (suc fuel) val buf b h k =
      elim (Bool-cases (ltb buf_len (length buf + length val))) [
        | inl over ↦
            let more = ltb→lt _ _ over in
            let room = buf_len - length buf in
            rw (over) (
              full_record buf (take room val) (drop room val) (drop header_len buf ++ val)
                request_id rtype _ b (omega (arith, b.has_room, length-take room val (omega arith)))
                (ap (◌++◌ (drop header_len buf)) (sym (take-append-drop room val)))
                (rw (no_blank) at (
                  append_loop-Appends fuel (drop room val) blank blank-IsBuffer (omega arith)
                    (omega (arith, b.has_room, length-drop room val)))))
        | inr fits ↦
            rw (fits, ← (drop-append_le header_len buf val b.has_head))
              (return-Appends (λ x. x) request_id rtype (buf ++ val)
                (record {
                  has_head = omega (arith, b.has_head, length-append buf val);
                  has_room = omega (arith, length-append buf val, not_ltb→le _ _ fits);
                }))
      ]

  pub append_to_stream-Appends :
      (val buf : Bytes)
      → IsBuffer buf
      → Appends
          (λ x. x)
          request_id
          rtype
          (drop header_len buf ++ val)
          (append_to_stream blank val buf request_id rtype)
  unfolding append_to_stream
  append_to_stream-Appends val buf b =
      append_loop-Appends (length val + 2) val buf b (omega arith) (omega (arith, b.has_room))
