-- ===== src/Bytes/Laws.antt =====
-- Slices and advances of a concatenation.
use async_fcgi.Base.{ℕ, ◌+◌, ◌-◌, ◌≤◌, ◌≡◌, ◌++◌, ap, ◌∙◌, arith, length, take, drop}
use async_fcgi.Base.{length-append, take-length-append, drop-length-append}
use async_fcgi.Base.Result.{ok}
use async_fcgi.Bytes.Defs.{Bytes, slice, advance}

advance-eq-drop : (xs : Bytes) (n : ℕ) → n ≤ length xs → advance xs n ≡ ok (drop n xs)
unfolding advance
advance-eq-drop xs n h = ground arith

slice-eq-take :
    (xs : Bytes) (m n : ℕ) → m ≤ n → n ≤ length xs → slice xs m n ≡ ok (take (n - m) (drop m xs))
unfolding slice
slice-eq-take xs m n h k = ground arith

pub advance-append : (xs ys : Bytes) → advance (xs ++ ys) (length xs) ≡ ok ys
advance-append xs ys =
    advance-eq-drop (xs ++ ys) (length xs) (omega (arith, length-append xs ys))
    ∙ ap ok (drop-length-append xs ys)

pub slice-append :
    (xs ys zs : Bytes) → slice (xs ++ (ys ++ zs)) (length xs) (length xs + length ys) ≡ ok ys
slice-append xs ys zs =
    slice-eq-take _ (length xs) (length xs + length ys) (omega arith)
      (omega (arith, length-append xs (ys ++ zs), length-append ys zs))
    ∙ rw (drop-length-append xs (ys ++ zs))
        (rw (diff (length xs) (length ys)) (ap ok (take-length-append ys zs)))
  where
    diff : (a b : ℕ) → a + b - a ≡ b
    diff a b = omega arith
