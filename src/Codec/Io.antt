-- ===== src/Codec/Io.antt =====
-- codec.rs: the socket that `FCGIWriter` writes to, and the outcome of a write.
pub mod Emits
pub mod Bind
use async_fcgi.Base.{ℕ, List, [], ◌∷◌, ◌++◌, take, drop}
use async_fcgi.Bytes.{Bytes}

-- What the next write to the socket does: it takes at most so many bytes, or fails.
pub data Event : Type 0 where
  takes : ℕ → Event
  fails : Event

-- The bytes that have been written, and what the writes to come will do.
pub record Io : Type 0 where
  pub written : Bytes
  pub plan : List Event

-- How a call ends. `blocked` waits for a write that is not in the plan, `too_short` is the error of
-- `data_stream` and `send_body`, `invalid_data` that of `forward`, `stuck` means that the fuel of a
-- loop ran out.
pub data Outcome {ℓ} (A : Type ℓ) : Type ℓ where
  done : A → Outcome A
  io_failed blocked too_short invalid_data panicked stuck : Outcome A

abbrev pub M {ℓ} : Type ℓ → Type ℓ
M A = Io → Outcome A × Io

-- The rest of a block, after a step that ended so.
abbrev pub after {ℓ κ} : {A : Type ℓ} {B : Type κ} → Outcome A → (A → M B) → M B
after (done a) f io = f a io
after io_failed f io = (io_failed, io)
after blocked f io = (blocked, io)
after too_short f io = (too_short, io)
after invalid_data f io = (invalid_data, io)
after panicked f io = (panicked, io)
after stuck f io = (stuck, io)

infixl 5 ◌>>=◌ ◌>>◌
abbrev pub ◌>>=◌ {ℓ κ} : {A : Type ℓ} {B : Type κ} → M A → (A → M B) → M B
◌>>=◌ m f io = after (m io).0 f (m io).1

abbrev pub ◌>>◌ {ℓ} : {B : Type ℓ} → M (Unit {0}) → M B → M B
m >> k = m >>= λ _. k

abbrev pub return {ℓ} : {A : Type ℓ} → A → M A
return a io = (done a, io)

abbrev pub ends {ℓ} : {A : Type ℓ} → Outcome A → M A
ends o io = (o, io)

write_loop : List Event → Bytes → Bytes → Outcome (Unit {0}) × Io
write_loop plan [] written = (done tt, record { written = written; plan = plan })
write_loop [] (b ∷ bs) written = (blocked, record { written = written; plan = [] })
write_loop (fails ∷ plan) (b ∷ bs) written = (io_failed, record { written = written; plan = plan })
write_loop (takes n ∷ plan) (b ∷ bs) written =
    write_loop plan (drop n (b ∷ bs)) (written ++ take n (b ∷ bs))

-- `write_whole_buf`: writes until the buffer is used up.
pub write_whole_buf : Bytes → M (Unit {0})
unfolding write_loop
write_whole_buf buf io = write_loop io.plan buf io.written
