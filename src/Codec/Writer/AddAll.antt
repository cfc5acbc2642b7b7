-- ===== src/Codec/Writer/AddAll.antt =====
-- codec.rs: the pairs that a `NameValuePairWriter` is given one by one, as one list.
use async_fcgi.Base.{ℕ, ◌≡◌, refl, ap, sym, ◌∙◌, List, [], ◌∷◌, ◌++◌}
use std.Path.{fun_ext}
use async_fcgi.Bytes.{Bytes}
use async_fcgi.Fastcgi.Types.{RecordType}
use async_fcgi.Fastcgi.NameValuePair.{NameValuePair}
use async_fcgi.Codec.Io.{M, ◌>>=◌, return}
use async_fcgi.Codec.Io.Bind.{bind_assoc, bind-return}
use async_fcgi.Codec.Writer.{
  NameValuePairWriter, kv_stream, add_kv, add, add_all, extend, flush, encode_kvp,
}

abbrev pub pair : Bytes → Bytes → NameValuePair
pair name val = record { name_data = name; value_data = val }

abbrev pub of_iter : List (Bytes × Bytes) → List NameValuePair
of_iter [] = []
of_iter ((k, v) ∷ iter) = pair k v ∷ of_iter iter

-- Blocks that start alike and go on alike.
pub bind-ext :
    {A B : Type 0} (m : M A) {f g : A → M B} → ((a : A) → f a ≡ g a) → (m >>= f) ≡ (m >>= g)
bind-ext m h = ap (λ k. m >>= k) (fun_ext h)

-- `f` gives the writer these pairs and goes on as `c`.
abbrev pub Puts :
    {B : Type 0}
    → Bytes
    → List NameValuePair
    → (NameValuePairWriter → M B)
    → (NameValuePairWriter → M B)
    → Type 0
Puts blank ps c f = (kvw : NameValuePairWriter) → f kvw ≡ (add_all blank kvw ps >>= c)

module _ (blank : Bytes) where
  pub Puts-nil : {B : Type 0} (c : NameValuePairWriter → M B) → Puts blank [] c c
  unfolding add_all
  Puts-nil c kvw = refl

  pub add_kv-Puts :
      (name val : Bytes) → Puts blank (pair name val ∷ []) return (λ kvw. add_kv blank kvw name val)
  unfolding add_all add
  add_kv-Puts name val kvw =
      sym (
        bind-return (add_kv blank kvw name val >>= return)
        ∙ bind-return (add_kv blank kvw name val))

  add_all-append :
      (ps qs : List NameValuePair) (kvw : NameValuePairWriter)
      → add_all blank kvw (ps ++ qs) ≡ (add_all blank kvw ps >>= λ k. add_all blank k qs)
  unfolding add_all
  add_all-append [] qs kvw = refl
  add_all-append (p ∷ ps) qs kvw =
      bind-ext (add blank kvw p) (add_all-append ps qs)
      ∙ sym (bind_assoc (add blank kvw p) (λ k. add_all blank k ps) (λ k. add_all blank k qs))

  -- One after the other.
  pub bind-Puts :
      {B : Type 0} (ps qs : List NameValuePair) (c : NameValuePairWriter → M B)
      (f : NameValuePairWriter → M NameValuePairWriter) (g : NameValuePairWriter → M B)
      → Puts blank ps return f
      → Puts blank qs c g
      → Puts blank (ps ++ qs) c (λ kvw. f kvw >>= g)
  bind-Puts ps qs c f g pf pg kvw =
      ap (λ m. m >>= g) (pf kvw ∙ bind-return (add_all blank kvw ps))
      ∙ bind-ext (add_all blank kvw ps) pg
      ∙ sym (bind_assoc (add_all blank kvw ps) (λ k. add_all blank k qs) c)
      ∙ ap (λ m. m >>= c) (sym (add_all-append ps qs kvw))

  pub extend-Puts :
      (iter : List (Bytes × Bytes))
      → Puts blank (of_iter iter) return (λ kvw. extend blank kvw iter)
  unfolding extend
  extend-Puts [] kvw = Puts-nil return kvw
  extend-Puts ((k, v) ∷ iter) kvw =
      bind-Puts (pair k v ∷ []) (of_iter iter) return (λ w. add_kv blank w k v)
        (λ w. extend blank w iter) (add_kv-Puts k v) (extend-Puts iter) kvw

  -- A new writer that is given pairs and is flushed, writes what `encode_kvp` writes.
  pub Puts-encode_kvp :
      (request_id : ℕ) (rtype : RecordType) (ps : List NameValuePair)
      (f : NameValuePairWriter → M (Unit {0}))
      → Puts blank ps (flush blank) f
      → f (kv_stream blank request_id rtype) ≡ encode_kvp blank request_id rtype ps
  unfolding encode_kvp
  Puts-encode_kvp request_id rtype ps f h = h (kv_stream blank request_id rtype)

  pub flush-encode_kvp :
      (request_id : ℕ) (rtype : RecordType) (ps : List NameValuePair)
      (f : NameValuePairWriter → M NameValuePairWriter)
      → Puts blank ps return f
      → (f (kv_stream blank request_id rtype) >>= flush blank)
        ≡ encode_kvp blank request_id rtype ps
  flush-encode_kvp request_id rtype ps f h =
      Puts-encode_kvp request_id rtype ps (λ kvw. f kvw >>= flush blank)
        (λ kvw. ap (λ m. m >>= flush blank) (h kvw ∙ bind-return (add_all blank kvw ps)))
