-- ===== src/Lib.antt =====
-- async_fcgi: a FastCGI client for Rust, which speaks to FastCGI applications as a web server does.
--
-- A request is written to the application as a row of records: its beginning, its parameters as
-- name-value pairs, and its body as the STDIN stream. The answer comes back as records of the STDOUT
-- and STDERR streams and one record that ends the request. One connection carries several requests at
-- a time: whoever polls the connection reads its records and hands their contents to the requests, each
-- of which has a slot in a slab, a list of buffers and a waker.
--
-- The files follow the source:
--   Base, Bytes       shared helpers; a `Bytes` is a list of numbers, reads take from its front. What a
--                     read past the end, a failed `expect` or `panic!` does is the value `panic`.
--   BufVec            src/bufvec.rs: `BufList` with push, oldest, remaining, chunk and advance.
--   Fastcgi/Types     src/fastcgi.rs: the types of records, the roles and the statuses.
--   Fastcgi/Header    src/fastcgi.rs: `Header::new`, `write_into`, `parse`, `get_padding`.
--   Fastcgi/NameValuePair, NvBody, NvBodyList
--                     src/fastcgi.rs: `NameValuePair`, `NVBody` and its iterator, `NVBodyList`.
--   Fastcgi/Record    src/fastcgi.rs: `Record::read`, `parse_body`, `append`, `NVBody::to_record`,
--                     `STDINBody::new` and the bodies of the other records.
--   Fastcgi/RecordReader
--                     src/fastcgi.rs: `RecordReader::read`, for streams that arrive in pieces.
--   Codec/Io          src/codec.rs: `write_whole_buf` on a socket, which is a list of what each write
--                     will do: take some bytes, or fail. A block has the outcome of Rust's `?`.
--   Codec/Writer      src/codec.rs: `FCGIWriter` and `NameValuePairWriter`; `write_body` is the method
--                     `data_stream`, whose name is that of a record type here.
--   Client/Requests   src/client/connection.rs: `FCGIRequest`, the slab, `parse_and_distribute`.
--   Client/Connection src/client/connection.rs: `poll_resp`, `notify_everyone`, `CheckAlive`, `close`.
--   Client/Body       src/client/connection.rs: `FCGIBody::poll_frame` and its `drop`.
--   Client/Send       src/client/connection.rs: `send_body`, in the release build.
--   Client/Response   src/client/connection.rs: a round of the loop of `create_response` on the requests;
--                     Client/Response/Head is the whole loop on the frames that it gets.
--   Client/Headers    src/client/connection.rs: the header strategies, and the names and values of the
--                     parameters that `forward` makes of headers.
--   Client/Decimal    src/client/connection.rs: `to_string` of the length of a body.
--   Client/Params     src/client/connection.rs: `forward` from the begin of a request to the end of its
--                     parameters.
--   Client/Forward    src/client/connection.rs: all of `forward` up to the answer.
--   Client/Lifecycle  src/client/connection.rs: the states of a connection, with its permits and slots,
--                     `connect_with_strategy`, `is_ready`, and the steps between the states.
--   Client/Turns      src/client/connection.rs: `forward` and `send_body` of several requests at a time,
--                     cut where the mutex is given back, in any order of the turns.
--   Httpparse         src/httpparse.rs: `parse`.
--   Client/ConPool    src/client/con_pool.rs: the limits that `new_with_strategy` takes from an answer,
--                     and `parse_int`, with `str::parse` for unsigned types. Client/ConPool/Opening is
--                     `new_with_strategy` from its query to the limits.
--   Client/Receive    src/client/con_pool.rs: `send_and_receive`, on what the reads of the socket give.
-- The modules below a component prove its properties; where it has none, its own file does. The modules
-- whose names end in Examples apply them.
--
-- The state of a component is a record, and a method that changes it returns the new one; a method on
-- `&mut Bytes` returns the bytes that are left. A poll is one call, with what the socket or the mutex
-- answers as an argument; the wakers that are called are a list in the result. The element type of
-- `BufList` is `Bytes`, as everywhere in the source.
--
-- Fuel: the loop over `RecordReader::read` gets two rounds more than there are bytes, since each round
-- takes a byte or finishes a header that was kept; the loop of `append_to_stream` gets two rounds more
-- than the value has bytes, since all but the first write one; that of `flush_data_chunk` gets one more
-- than the chunk has bytes; the loops over `Record::read` and over the pairs of an answer take bytes in
-- every round too. The theorems on these functions show that they do not run out.
--
-- Parameters: `Buf::copy_to_bytes` of the crate bytes is the argument `copy_to_bytes` of `drain` and
-- `append`; `BufMut::advance_mut`, which makes the padding or panics for want of room, is the argument
-- `advance_mut`; the eight bytes that `set_len` takes are the argument `blank`, also where the buffer has
-- no room left for them and Rust leaves it undefined what happens; the parser of a response's head is `parse` in
-- Client/Response, and in Httpparse `parse_headers` of the crate httparse is. The header maps of the
-- crate http are the records `HeaderMap` and `ResponseMap`, `Slab::insert` is the record `SlabCrate`, each
-- with what the crate documents; `HeaderName::from_bytes` and `StatusCode::from_bytes` are arguments too.
-- What `Stream::connect` gives is an argument of `forward`.
--
-- A connection as a whole is a state with the permits of its semaphore, and each call that takes a
-- permit, inserts a request or works on the slab is a step of it. The steps are taken in any order, as
-- the mutex around the connection allows it.
--
-- Not modelled: `prep_server` of src/client/con_pool.rs, which starts a process, src/server/mod.rs, whose
-- code is commented out, src/stream.rs, which names the types of another crate, the builder of the
-- response in `create_response`, and logging, the `Display` implementations and the pass-through reads of
-- src/codec.rs. So are `ConPool::forward`, which calls that of its
-- connection, `BodyDataFrame`, which passes over frames without data, and a call of `forward` that is
-- dropped while it waits. In Client/Turns
-- the first error of the socket ends the run of all requests.
pub mod Base
pub mod Bytes
pub mod BufVec
pub mod Fastcgi
pub mod Codec
pub mod Httpparse
pub mod Client
