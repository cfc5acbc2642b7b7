-- ===== src/Client/Decimal.antt =====
-- client/connection.rs: `to_string` of a length.
use async_fcgi.Base.{ℕ, ◌+◌, zero, suc, ◌/◌, ◌%◌, [], ◌∷◌, ltb, if◌then◌else◌}
use async_fcgi.Bytes.{Bytes}

-- The digits of `n`, in front of those that were made before.
unfoldable pub digit_loop : ℕ → ℕ → Bytes → Bytes
digit_loop zero n digits = digits
digit_loop (suc fuel) n digits =
    let digits1 = (48 + n % 10) ∷ digits in
    let more = digit_loop fuel (n / 10) digits1 in if ltb n 10 then digits1 else more

-- A `u64` has twenty digits at most.
unfoldable pub to_string : ℕ → Bytes
unfolding digit_loop
to_string n = digit_loop 20 n []
