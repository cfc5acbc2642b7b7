-- ===== src/Codec/Io/Bind.antt =====
-- codec.rs: blocks of calls, regrouped.
use async_fcgi.Base.{◌≡◌, refl}
use std.Path.{fun_ext}
use async_fcgi.Codec.Io.{Io, Outcome, done, io_failed, blocked, too_short, invalid_data, panicked}
use async_fcgi.Codec.Io.{stuck, M, after, ◌>>=◌, return}

after_assoc :
    {A B C : Type 0} (o : Outcome A) (f : A → M B) (g : B → M C) (io : Io)
    → after (after o f io).0 g (after o f io).1 ≡ after o (λ a. f a >>= g) io
after_assoc (done a) f g io = refl
after_assoc io_failed f g io = refl
after_assoc blocked f g io = refl
after_assoc too_short f g io = refl
after_assoc invalid_data f g io = refl
after_assoc panicked f g io = refl
after_assoc stuck f g io = refl

pub bind_assoc :
    {A B C : Type 0} (m : M A) (f : A → M B) (g : B → M C)
    → ((m >>= f) >>= g) ≡ (m >>= λ a. f a >>= g)
bind_assoc m f g = fun_ext (λ io. after_assoc (m io).0 f g (m io).1)

after-return : {A : Type 0} (o : Outcome A) (io : Io) → after o return io ≡ (o, io)
after-return (done a) io = refl
after-return io_failed io = refl
after-return blocked io = refl
after-return too_short io = refl
after-return invalid_data io = refl
after-return panicked io = refl
after-return stuck io = refl

pub bind-return : {A : Type 0} (m : M A) → (m >>= return) ≡ m
bind-return m = fun_ext (λ io. after-return (m io).0 (m io).1)
