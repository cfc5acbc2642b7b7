-- ===== src/Codec/Writer/Streams.antt =====
-- codec.rs: the streams of records that the writer makes.
use async_fcgi.Base.{ℕ, ◌≤◌, ◌<◌, ◌≡◌, refl, sym}
use async_fcgi.Base.{[], ◌++◌, length, append-nil, append_assoc, drop}
use async_fcgi.Bytes.{Bytes}
use async_fcgi.Fastcgi.Types.{RecordType}
use async_fcgi.Fastcgi.Header.{Header, header_len, padding, write_into-bytes}
use async_fcgi.Fastcgi.Header
use async_fcgi.Fastcgi.Record.Read.{frame}
use async_fcgi.Codec.Io.{done, M, ◌>>=◌, return}
use async_fcgi.Codec.Io.Emits.{Emits, return-Emits, bind-Emits}
use async_fcgi.Codec.Writer.{buf_len}

-- The most that one record of a stream holds.
abbrev pub max_content : ℕ
max_content = 65528

-- `out` is a row of records of one stream, none of them empty, and their contents make up `payload`.
pub data Records (request_id : ℕ) (rtype : RecordType) : Bytes → Bytes → Type 0 where
  nil : Records request_id rtype [] []
  cons :
      (content pad : Bytes) {rest out : Bytes}
      → 0 < length content
      → length content ≤ max_content
      → length pad ≡ padding (length content)
      → Records request_id rtype rest out
      → Records request_id rtype
          (content ++ rest)
          (frame (Header.new rtype request_id (length content)) content pad ++ out)

-- `out` is a whole stream: records that hold `payload`, and an empty one that ends the stream.
pub data Stream (request_id : ℕ) (rtype : RecordType) (payload : Bytes) : Bytes → Type 0 where
  stream :
      {out : Bytes}
      → Records request_id rtype payload out
      → Stream request_id rtype payload (out ++ Header.bytes (Header.new rtype request_id 0))

pub Records-append :
    {request_id : ℕ} {rtype : RecordType} {payload1 payload2 out1 out2 : Bytes}
    → Records request_id rtype payload1 out1
    → Records request_id rtype payload2 out2
    → Records request_id rtype (payload1 ++ payload2) (out1 ++ out2)
Records-append nil t = t
Records-append {request_id} {rtype} {out2 = o2}
      (cons content pad {out = o} some_byte small padded s) t =
    rw
      (
        append_assoc content,
        append_assoc (frame (Header.new rtype request_id (length content)) content pad) o o2,
      )
      (cons content pad some_byte small padded (Records-append s t))

pub Records-Stream :
    {request_id : ℕ} {rtype : RecordType} {sent rest out1 out2 : Bytes}
    → Records request_id rtype sent out1
    → Stream request_id rtype rest out2
    → Stream request_id rtype (sent ++ rest) (out1 ++ out2)
Records-Stream {out1 = o} r (stream {out = o2} t) =
    rw (← (append_assoc o o2 _)) (stream (Records-append r t))

pub one-Records :
    (request_id : ℕ) (rtype : RecordType) (content pad : Bytes)
    → 0 < length content
    → length content ≤ max_content
    → length pad ≡ padding (length content)
    → Records request_id rtype content
        (frame (Header.new rtype request_id (length content)) content pad)
one-Records request_id rtype content pad some_byte small padded =
    rw
      (
        append-nil content,
        append-nil (frame (Header.new rtype request_id (length content)) content pad),
      )
      at the_one
  where
    the_one :
        Records request_id rtype
          (content ++ [])
          (frame (Header.new rtype request_id (length content)) content pad ++ [])
    the_one = cons content pad some_byte small padded nil

-- The buffer holds a place for a header and at most one content.
pub record IsBuffer (buf : Bytes) : Type 0 where
  pub has_head : header_len ≤ length buf
  pub has_room : length buf ≤ buf_len

-- A block that goes on with a stream of which `unsent` is not written yet: it writes records, and
-- ends with a buffer that holds what is still not written. `at` makes its result of the buffer.
pub record Appends {A : Type 0} (at : Bytes → A) (request_id : ℕ) (rtype : RecordType)
    (unsent : Bytes) (m : M A) : Type 0 where
  pub sent : Bytes
  pub out : Bytes
  pub buf : Bytes
  pub emits : Emits m out (done (at buf))
  pub records : Records request_id rtype sent out
  pub is_buffer : IsBuffer buf
  pub same_data : unsent ≡ sent ++ drop header_len buf

pub bind-Appends :
    {A B : Type 0} (at1 : Bytes → A) (at2 : Bytes → B) (request_id : ℕ) (rtype : RecordType)
    (unsent val : Bytes) (m : M A) (f : A → M B)
    → Appends at1 request_id rtype unsent m
    → ((buf : Bytes)
        → IsBuffer buf
        → Appends at2 request_id rtype (drop header_len buf ++ val) (f (at1 buf)))
    → Appends at2 request_id rtype (unsent ++ val) (m >>= f)
bind-Appends at1 at2 request_id rtype unsent val m f a next =
    let b = next a.buf a.is_buffer in
    record {
      sent = a.sent ++ b.sent;
      out = a.out ++ b.out;
      buf = b.buf;
      emits = bind-Emits m f a.out b.out a.emits b.emits;
      records = Records-append a.records b.records;
      is_buffer = b.is_buffer;
      same_data =
          rw (a.same_data, append_assoc a.sent (drop header_len a.buf) val, b.same_data)
            (sym (append_assoc a.sent b.sent _));
    }

pub return-Appends :
    {A : Type 0} (at : Bytes → A) (request_id : ℕ) (rtype : RecordType) (buf : Bytes)
    → IsBuffer buf
    → Appends at request_id rtype (drop header_len buf) (return (at buf))
return-Appends at request_id rtype buf b = record {
  sent = [];
  out = [];
  buf = buf;
  emits = return-Emits (at buf);
  records = nil;
  is_buffer = b;
  same_data = refl;
}

pub header_out : (h : Header) → Header.write_into h [] ≡ Header.bytes h
header_out h = write_into-bytes h []
