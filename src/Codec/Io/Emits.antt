-- ===== src/Codec/Io/Emits.antt =====
-- codec.rs: what a block writes, whatever the socket does.
use async_fcgi.Base.{ℕ, zero, suc, ◌+◌, ◌≤◌, ◌<◌, ◌≡◌, ◌⊎◌, inl, inr, refl, ap, sym, ◌∙◌, arith}
use async_fcgi.Base.{
  List, [], ◌∷◌, ◌++◌, length, length-append, take, drop, append-nil, append_assoc,
}
use async_fcgi.Base.{take-append-drop}
use std.Path.{subst}
use async_fcgi.Bytes.{Bytes}
use async_fcgi.Codec.Io.{Event, takes, fails, Io, Outcome, done, io_failed, blocked}
use async_fcgi.Codec.Io.{M, after, ◌>>=◌, return, ends, write_loop, write_whole_buf}

-- The writes of a plan that take something, up to the first that fails: each of them takes a byte
-- at least.
abbrev budget : List Event → ℕ
budget [] = 0
budget (fails ∷ plan) = 0
budget (takes zero ∷ plan) = budget plan
budget (takes (suc n) ∷ plan) = suc (budget plan)

-- The outcomes that the socket is to blame for.
abbrev IsStopped {ℓ} : {A : Type ℓ} → Outcome A → Type ℓ
IsStopped o = (o ≡ io_failed) ⊎ (o ≡ blocked)

-- From `before`, a run ended as `o` if it could write all of `out`. If the socket stopped it, only
-- a front of `out` is written, and the plan had fewer good writes than `out` has bytes.
pub data Ran {ℓ} {A : Type ℓ} (before : Io) (out : Bytes) (o : Outcome A) (run : Outcome A × Io)
    : Type ℓ where
  ran :
      run.0 ≡ o
      → (run.1).written ≡ before.written ++ out
      → budget before.plan ≤ budget (run.1).plan + length out
      → Ran before out o run
  broke :
      (front back : Bytes)
      → out ≡ front ++ back
      → IsStopped run.0
      → (run.1).written ≡ before.written ++ front
      → budget before.plan < length out
      → Ran before out o run

-- `m` writes `out` and ends as `o`, on every socket that lets it.
abbrev pub Emits {ℓ} : {A : Type ℓ} → M A → Bytes → Outcome A → Type ℓ
Emits m out o = (io : Io) → Ran io out o (m io)

pub ends-Emits {ℓ} : {A : Type ℓ} (o : Outcome A) → Emits (ends o) [] o
ends-Emits o io = ran refl (sym (append-nil io.written)) (omega arith)

pub return-Emits {ℓ} : {A : Type ℓ} (a : A) → Emits (return a) [] (done a)
return-Emits a io = ran refl (sym (append-nil io.written)) (omega arith)

pub same-Emits {ℓ} :
    {A : Type ℓ} {m n : M A} {out : Bytes} {o : Outcome A} → m ≡ n → Emits n out o → Emits m out o
same-Emits {out} {o} e h = subst (λ m. Emits m out o) (sym e) h

-- A run that goes on where an earlier one got to.
Ran-after {ℓ} :
    {A : Type ℓ} {o : Outcome A} {run : Outcome A × Io} (before middle : Io) (out1 out2 : Bytes)
    → middle.written ≡ before.written ++ out1
    → budget before.plan ≤ budget middle.plan + length out1
    → Ran middle out2 o run
    → Ran before (out1 ++ out2) o run
Ran-after before middle out1 out2 w b (ran e w' b') =
    ran e (w' ∙ rw w (append_assoc before.written out1 out2))
      (omega (arith, length-append out1 out2))
Ran-after before middle out1 out2 w b (broke front back e s w' b') =
    broke (out1 ++ front) back (rw e (sym (append_assoc out1 front back))) s
      (w' ∙ rw w (append_assoc before.written out1 front)) (omega (arith, length-append out1 out2))

IsStopped-after {ℓ κ} :
    {A : Type ℓ} {B : Type κ} (o : Outcome A) (f : A → M B) (io : Io)
    → IsStopped o
    → IsStopped (after o f io).0 × ((after o f io).1 ≡ io)
IsStopped-after o f io (inl e) = rw e (inl refl, refl)
IsStopped-after o f io (inr e) = rw e (inr refl, refl)

Ran-bind {ℓ κ} :
    {A : Type ℓ} {B : Type κ} (m : Outcome A × Io) (f : A → M B) (io : Io) (out1 out2 : Bytes)
    (a : A) (o : Outcome B)
    → Ran io out1 (done a) m
    → Emits (f a) out2 o
    → Ran io (out1 ++ out2) o (after m.0 f m.1)
Ran-bind m f io out1 out2 a o (ran e w b) next = rw e (Ran-after io m.1 out1 out2 w b (next m.1))
Ran-bind m f io out1 out2 a o (broke front back e s w b) next =
    let (s', same) = IsStopped-after m.0 f m.1 s in
    broke front (back ++ out2) (rw e (append_assoc front back out2)) s' (rw same w)
      (omega (arith, length-append out1 out2))

pub bind-Emits {ℓ κ} :
    {A : Type ℓ} {B : Type κ} (m : M A) (f : A → M B) (out1 out2 : Bytes) {a : A} {o : Outcome B}
    → Emits m out1 (done a)
    → Emits (f a) out2 o
    → Emits (m >>= f) (out1 ++ out2) o
bind-Emits m f out1 out2 {a} {o} e1 e2 io = Ran-bind (m io) f io out1 out2 a o (e1 io) e2

Ran-stop {ℓ κ} :
    {A : Type ℓ} {B : Type κ} (m : Outcome A × Io) (f : A → M B) (io : Io) (out : Bytes)
    (o1 : Outcome A) (o2 : Outcome B)
    → Ran io out o1 m
    → ((io' : Io) → after o1 f io' ≡ (o2, io'))
    → Ran io out o2 (after m.0 f m.1)
Ran-stop m f io out o1 o2 (ran e w b) stops = rw (e, stops m.1) (ran refl w b)
Ran-stop m f io out o1 o2 (broke front back e s w b) stops =
    let (s', same) = IsStopped-after m.0 f m.1 s in broke front back e s' (rw same w) b

-- A block that stops with its first call.
pub stop-Emits {ℓ κ} :
    {A : Type ℓ} {B : Type κ} (m : M A) (f : A → M B) (out : Bytes) {o1 : Outcome A}
    {o2 : Outcome B}
    → Emits m out o1
    → ((io' : Io) → after o1 f io' ≡ (o2, io'))
    → Emits (m >>= f) out o2
stop-Emits m f out {o1} {o2} e stops io = Ran-stop (m io) f io out o1 o2 (e io) stops

write_loop-Ran :
    (plan : List Event) (buf written : Bytes)
    → Ran (record { written = written; plan = plan }) buf (done tt) (write_loop plan buf written)
unfolding write_loop
write_loop-Ran [] [] written = ran refl (sym (append-nil written)) (omega arith)
write_loop-Ran (e ∷ plan) [] written = ran refl (sym (append-nil written)) (omega arith)
write_loop-Ran [] (b ∷ bs) written =
    broke [] (b ∷ bs) refl (inr refl) (sym (append-nil written)) (omega arith)
write_loop-Ran (fails ∷ plan) (b ∷ bs) written =
    broke [] (b ∷ bs) refl (inl refl) (sym (append-nil written)) (omega arith)
write_loop-Ran (takes zero ∷ plan) (b ∷ bs) written =
    rw append-nil (write_more (write_loop-Ran plan (b ∷ bs) written))
  where
    write_more :
        Ran
          (record { written = written; plan = plan })
          (b ∷ bs)
          (done tt)
          (write_loop plan (b ∷ bs) written)
        → Ran
            (record { written = written; plan = takes zero ∷ plan })
            (b ∷ bs)
            (done tt)
            (write_loop plan (b ∷ bs) written)
    write_more (ran e w c) = ran e w c
    write_more (broke front back e s w c) = broke front back e s w c
write_loop-Ran (takes (suc n) ∷ plan) (b ∷ bs) written = rw (same) at (
    Ran-after (record { written = written; plan = takes (suc n) ∷ plan })
      (record { written = written ++ (b ∷ take n bs); plan = plan }) (b ∷ take n bs) (drop n bs)
      refl (omega arith) (write_loop-Ran plan (drop n bs) (written ++ (b ∷ take n bs))))
  where
    same : (b ∷ take n bs) ++ drop n bs ≡ b ∷ bs
    same = ap (◌∷◌ b) (take-append-drop n bs)

pub write_whole_buf-Emits : (buf : Bytes) → Emits (write_whole_buf buf) buf (done tt)
unfolding write_whole_buf
write_whole_buf-Emits buf io = write_loop-Ran io.plan buf io.written
