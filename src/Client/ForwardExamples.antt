-- ===== src/Client/ForwardExamples.antt =====
-- client/connection.rs: requests at which the theorems on `forward` apply.
use async_fcgi.Base.{◌+◌, ℕ, zero, suc, ◌<◌, ◌≡◌, ◌≢◌, refl, arith, true, false}
use async_fcgi.Base.{
  none, some, List, [], ◌∷◌, ◌++◌, length, All, if◌then◌else◌, Bool-cases, inl, inr,
}
use async_fcgi.Base.Result.{ok}
use async_fcgi.Bytes.{Bytes}
use async_fcgi.Fastcgi.Types.{RecordType}
use async_fcgi.Fastcgi.Header.{Header}
use async_fcgi.Fastcgi.Header
use async_fcgi.Fastcgi.RecordReader.{RecordReader}
use async_fcgi.Fastcgi.RecordReader
use async_fcgi.Codec.Io.{Io, Outcome, invalid_data, takes}
use async_fcgi.Codec.Io.Emits.{Ran}
use async_fcgi.Codec.Writer.Streams.{Records}
use async_fcgi.Fastcgi.NvBody.Drain.{encodings}
use async_fcgi.Codec.Writer.Single.{begin_bytes}
use async_fcgi.Client.Requests.{Request, Slab, get, put}
use async_fcgi.Client.Requests.Changes.{IsRunning}
use async_fcgi.Client.Connection.{
  alive, check_alive, InnerConnection, fill_pending, fill_ok, fill_err, other_error, poll_resp,
  Polled, resp_pending, resp_closed,
}
use async_fcgi.Client.Connection.Laws.{AllNotified, wakers}
use async_fcgi.Client.ConPool.{same_bytes}
use async_fcgi.Client.Decimal.{to_string, digit_loop}
use async_fcgi.Client.Headers.{
  HeaderMap, combine, return_error, first, skip, contains_key, refuses, contains_newline,
  combine_loop, upper, authorization, meta_name, header_value,
}
use async_fcgi.Client.Headers.Names.{IsMetaChar, meta_name-IsMetaChar, meta_name-inj}
use async_fcgi.Client.Headers.Values.{fields, combine-fields}
use async_fcgi.Client.Params.{HttpRequest, Strategies, announced, put_head}
use async_fcgi.Client.Params.Laws.{IsAccepted, cgi_params, fixed_params, header_pairs}
use async_fcgi.Client.Params.Skipped.{SameButSkipped, put_head-SameButSkipped}
use async_fcgi.Client.Forward.{
  Inserted, reused, pushed, SlabCrate, Forwarded, refused, sent, forward,
}
use async_fcgi.Client.Forward.Sent.{IsAnnounced}
use async_fcgi.Codec.Writer.Pairs.{IsEncodable}
use async_fcgi.Client.Forward.Opening.{
  IsSent, forward-IsSent, forward-reconnects, at_end, forward_refused, other,
}
use async_fcgi.Client.Lifecycle.Orphans.{Others, forward_multiline-Others}

-- Headers as a list of keys with their values.
abbrev pub Table : Type 0
Table = List (Bytes × List Bytes)

unfoldable pub table_keys : Table → List Bytes
table_keys [] = []
table_keys ((key, vs) ∷ rows) = key ∷ table_keys rows

unfoldable pub table_get_all : Table → Bytes → List Bytes
table_get_all [] key = []
table_get_all ((k, vs) ∷ rows) key =
    let others = table_get_all rows key in if same_bytes k key then vs else others

abbrev pub table : HeaderMap
table = record {
  Headers = Table;
  keys = table_keys;
  get = λ h key. first (table_get_all h key);
  get_all = table_get_all;
  get-first = λ h key. refl;
}

-- The first vacant slot is taken.
unfoldable pub insert_first : Slab → Request → ℕ × Slab
insert_first [] req = (0, some req ∷ [])
insert_first (none ∷ slots) req = (0, some req ∷ slots)
insert_first (some r ∷ slots) req =
    let (k, slots') = insert_first slots req in (suc k, some r ∷ slots')

Inserted-behind :
    {slots : Slab} {req : Request} {k : ℕ} {slots' : Slab} (r : Request)
    → Inserted slots req k slots'
    → Inserted (some r ∷ slots) req (suc k) (some r ∷ slots')
unfolding put get
Inserted-behind {slots} {req} r (reused k h e) = reused (suc k) (omega arith) e
Inserted-behind {slots} r (pushed full) = pushed (λ k h. by_key k h)
  where
    by_key : (k : ℕ) → k < length (some r ∷ slots) → get (some r ∷ slots) k ≢ none
    by_key zero h = λ e. cc
    by_key (suc k) h = full k (omega arith)

pub insert_first-Inserted :
    (slab : Slab) (req : Request)
    → Inserted slab req (insert_first slab req).0 (insert_first slab req).1
unfolding insert_first put get
insert_first-Inserted [] req = pushed (λ k h. absurd (omega arith))
insert_first-Inserted (none ∷ slots) req = reused 0 (omega arith) refl
insert_first-Inserted (some r ∷ slots) req = Inserted-behind r (insert_first-Inserted slots req)

abbrev pub slab_crate : SlabCrate
slab_crate = record { insert = insert_first; insert-Inserted = insert_first-Inserted }

abbrev pub blank : Bytes
blank = 0 ∷ 0 ∷ 0 ∷ 0 ∷ 0 ∷ 0 ∷ 0 ∷ 0 ∷ []

abbrev pub strategies : Strategies
strategies = record { header_mul = combine; header_nl = return_error }

-- `host`, and a header `x` of two lines.
abbrev host : Bytes
host = 104 ∷ 111 ∷ 115 ∷ 116 ∷ []

abbrev two_lines : Bytes
two_lines = 97 ∷ 10 ∷ 98 ∷ []

abbrev pub rows : Table
rows = (host, (97 ∷ []) ∷ (98 ∷ []) ∷ []) ∷ []

-- A `POST` with a body of two bytes.
abbrev pub post : Table → HttpRequest table
post headers = record {
  query = none;
  method = 80 ∷ 79 ∷ 83 ∷ 84 ∷ [];
  headers = headers;
  size_lower = 2;
  size_upper = some 2;
  chunks = some (104 ∷ []) ∷ some (105 ∷ []) ∷ [];
}

abbrev pub dyn_headers : List (Bytes × Bytes)
dyn_headers = (65 ∷ [], 66 ∷ []) ∷ []

abbrev waiting : Request
waiting = record { buf = record { bufs = [] }; waker = some 7; ended = false; aborted = false }

abbrev pub connection : InnerConnection
connection = record {
  running_requests = none ∷ some waiting ∷ [];
  fcgi_parser = record { current = none };
}

abbrev io : Io
io = record { written = []; plan = takes 100 ∷ takes 100 ∷ [] }

abbrev pub polled : Polled
polled = record { result = resp_pending; inner = connection; consumed = 0; woken = [] }

pub rows-IsAccepted : IsAccepted table strategies rows (table_keys rows)
unfolding table_keys refuses contains_newline header_value combine_loop table_get_all same_bytes
rows-IsAccepted = (λ kept. refl, tt)

pub post-IsEncodable : All IsEncodable (cgi_params table strategies dyn_headers (post rows))
unfolding table_keys contains_key meta_name upper header_value combine_loop table_get_all same_bytes
    announced to_string digit_loop
post-IsEncodable = omega arith

post-IsAnnounced : IsAnnounced (announced (some 2) 2) (some (104 ∷ []) ∷ some (105 ∷ []) ∷ [])
unfolding announced
post-IsAnnounced = (omega arith, refl)

pub connection-polled : poll_resp fill_pending connection ≡ some (ok polled)
unfolding poll_resp
connection-polled = refl

pub connection-alive : check_alive resp_pending ≡ alive true
unfolding check_alive
connection-alive = refl

forward-IsSent_example :
    (f : Forwarded) × (forward blank table strategies slab_crate dyn_headers
        (post rows)
        fill_pending
        none
        connection
        io
      ≡ some (ok f))
    × IsSent blank table strategies dyn_headers (post rows) connection io [] f
forward-IsSent_example =
    forward-IsSent blank table strategies dyn_headers (post rows) slab_crate refl rows-IsAccepted
      post-IsEncodable post-IsAnnounced fill_pending none connection io polled connection-polled
      connection-alive (omega arith)

forward-reconnects_example :
    (f : Forwarded) × (slab : Slab) × (forward blank table strategies slab_crate dyn_headers
        (post rows)
        (fill_ok [])
        (some io)
        connection
        io
      ≡ some (ok f))
    × AllNotified connection.running_requests slab
    × IsSent blank table strategies dyn_headers
        (post rows)
        (record { running_requests = slab; fcgi_parser = RecordReader.new })
        io
        (wakers connection.running_requests)
        f
forward-reconnects_example =
    forward-reconnects blank table strategies dyn_headers (post rows) slab_crate refl
      rows-IsAccepted post-IsEncodable post-IsAnnounced (fill_ok []) resp_closed io connection io
      at_end (omega arith)

forward_refused_example :
    (c' : InnerConnection) × (forward blank table strategies slab_crate dyn_headers
        (post rows)
        (fill_err other_error)
        (some io)
        connection
        io
      ≡ some (ok (refused (some other_error) c' io (wakers connection.running_requests))))
    × AllNotified connection.running_requests c'.running_requests
forward_refused_example =
    forward_refused blank table strategies slab_crate dyn_headers (post rows) (fill_err other_error)
      (some io) (some other_error) connection io other

-- `x`, with a value of two lines, behind `host`.
abbrev pub bad_rows : Table
bad_rows = (host, (97 ∷ []) ∷ []) ∷ (120 ∷ [], two_lines ∷ []) ∷ []

bad-keys : table_keys bad_rows ≡ (host ∷ []) ++ ((120 ∷ []) ∷ [])
unfolding table_keys
bad-keys = refl

bad-IsAccepted : IsAccepted table strategies bad_rows (host ∷ [])
unfolding refuses contains_newline header_value combine_loop table_get_all same_bytes
bad-IsAccepted = (λ kept. refl, tt)

bad-kept : contains_key skip (120 ∷ []) ≡ false
unfolding contains_key same_bytes
bad-kept = refl

bad-refused : refuses return_error (header_value table combine bad_rows (120 ∷ [])) ≡ true
unfolding refuses contains_newline header_value combine_loop table_get_all same_bytes
bad-refused = refl

pub bad-IsEncodable : All IsEncodable (
    fixed_params table strategies dyn_headers (post bad_rows)
    ++ header_pairs table strategies bad_rows (host ∷ []))
unfolding contains_key meta_name upper header_value combine_loop table_get_all same_bytes announced
    to_string digit_loop
bad-IsEncodable = omega arith

forward_multiline-Others_example :
    (k : ℕ) × (slab : Slab) × (o : Outcome (Unit {0})) × (io' : Io) × (front back params : Bytes)
    × (forward blank table strategies slab_crate dyn_headers
          (post bad_rows)
          fill_pending
          none
          connection
          io
        ≡ some (ok (sent (suc k) o (record connection { running_requests = slab }) io' [])))
    × Ran io
        (begin_bytes (suc k)
          ++ (params ++ Header.bytes (Header.new RecordType.abort_request (suc k) 0)))
        invalid_data
        (o, io')
    × Records (suc k) RecordType.params front params
    × (encodings (
          fixed_params table strategies dyn_headers (post bad_rows)
          ++ header_pairs table strategies bad_rows (host ∷ []))
        ≡ front ++ back)
    × ((slab' : Slab) → Others k slab slab' → IsRunning slab' k)
forward_multiline-Others_example =
    forward_multiline-Others blank table strategies slab_crate dyn_headers (post bad_rows)
      (host ∷ []) [] (120 ∷ []) fill_pending none connection io polled refl bad-keys bad-IsAccepted
      bad-kept bad-refused bad-IsEncodable connection-polled connection-alive (omega arith)

-- The same request with credentials.
abbrev secret_rows : Table
secret_rows = (authorization, (120 ∷ []) ∷ []) ∷ rows

true-ne-false : true ≢ false
true-ne-false e = cc

secret_values :
    (key : Bytes)
    → contains_key skip key ≡ false
    → table_get_all rows key ≡ table_get_all secret_rows key
unfolding table_get_all contains_key
secret_values key kept = elim (Bool-cases (same_bytes authorization key)) [
  | inl skipped ↦ absurd (true-ne-false (rw (skipped) at kept))
  | inr elsewhere ↦ rw (elsewhere) refl
]

secret-SameButSkipped : SameButSkipped table rows secret_rows
unfolding table_keys table_get_all contains_key same_bytes
secret-SameButSkipped = record { same_keys = refl; same_values = secret_values; same_type = refl }

put_head-SameButSkipped_example :
    put_head blank table strategies 1 dyn_headers (post rows)
    ≡ put_head blank table strategies 1 dyn_headers (post secret_rows)
put_head-SameButSkipped_example =
    put_head-SameButSkipped blank table strategies 1 dyn_headers (post rows) secret_rows
      secret-SameButSkipped

meta_name-inj_example : host ≡ host
meta_name-inj_example = meta_name-inj host host (omega arith) (omega arith) refl

rows-host : table_get_all rows host ≡ (97 ∷ []) ∷ (98 ∷ []) ∷ []
unfolding table_get_all same_bytes
rows-host = refl

combine-fields_example : fields (header_value table combine rows host) ≡ (97 ∷ [], (98 ∷ []) ∷ [])
combine-fields_example =
    combine-fields table rows host (97 ∷ []) ((98 ∷ []) ∷ []) rows-host (omega arith)

meta_name-IsMetaChar_example : All IsMetaChar (meta_name host) × (length (meta_name host) ≡ 5 + 4)
meta_name-IsMetaChar_example = meta_name-IsMetaChar host
