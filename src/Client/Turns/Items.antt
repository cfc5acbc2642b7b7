-- ===== src/Client/Turns/Items.antt =====
-- client/connection.rs: the items that a request writes in its turns, and rows of them.
use async_fcgi.Base.{ℕ, suc, ◌+◌, ◌-◌, ◌%◌, ◌^◌, ◌<◌, ◌≡◌, refl, ap, arith, ◌==◌}
use async_fcgi.Base.{
  List, [], ◌∷◌, ◌++◌, length, append_assoc, append-nil, map, All, Option, none, some,
  if◌then◌else◌, Bool-cases, inl, inr, true, false,
}
use async_fcgi.Bytes.{Bytes}
use async_fcgi.Fastcgi.Types.{RecordType}
use async_fcgi.Fastcgi.Header.{Header}
use async_fcgi.Fastcgi.Header
use async_fcgi.Fastcgi.NvBody.Drain.{encodings}
use async_fcgi.Codec.Writer.Streams.{Records, Stream}
use async_fcgi.Codec.Writer.Body.{body_bytes}
use async_fcgi.Codec.Writer.Single.{begin_bytes}
use async_fcgi.Codec.Writer.Pairs.{IsEncodable}
use async_fcgi.Client.Headers.{HeaderMap}
use async_fcgi.Client.Params.{HttpRequest, Strategies, announced}
use async_fcgi.Client.Params.Laws.{cgi_params, fixed_params, header_pairs}
use async_fcgi.Client.Turns.Refused.{split_refused}
use async_fcgi.Fastcgi.NameValuePair.{NameValuePair}
use async_fcgi.Client.Send.{sub_assign}
use async_fcgi.Client.Turns.{Sender, opens, sends, closed}

-- What a request writes in one turn: its beginning with its parameters, bytes of its body, the end of
-- its body, or that it is aborted, behind a header that is refused or a body of another length.
pub data Item : Type 0 where
  head content refused : Bytes → Item
  stdin_end abort : Item

-- These bytes are that item of the request.
abbrev pub IsItem : ℕ → Item → Bytes → Type 0
IsItem rid (head payload) out =
    (params : Bytes) × (out ≡ begin_bytes rid ++ params)
    × Stream rid RecordType.params payload params
IsItem rid (content payload) out = Records rid RecordType.std_in payload out
IsItem rid (refused payload) out =
    (sent kept params : Bytes) × (payload ≡ sent ++ kept)
    × (out
        ≡ begin_bytes rid ++ (params ++ Header.bytes (Header.new RecordType.abort_request rid 0)))
    × Records rid RecordType.params sent params
IsItem rid stdin_end out = Stream rid RecordType.std_in [] out
IsItem rid abort out = out ≡ Header.bytes (Header.new RecordType.abort_request rid 0)

-- The bytes are whole items of these requests, in order.
pub data Row : List (ℕ × Item) → Bytes → Type 0 where
  nil : Row [] []
  cons :
      {rid : ℕ} {item : Item} {log : List (ℕ × Item)} (out : Bytes) {rest : Bytes}
      → IsItem rid item out
      → Row log rest
      → Row ((rid, item) ∷ log) (out ++ rest)

-- The items of one request.
abbrev pub of_request : ℕ → List (ℕ × Item) → List Item
of_request k [] = []
of_request k ((rid, item) ∷ log) =
    let others = of_request k log in if rid == k then item ∷ others else others

-- The chunks that are sent: those that are no errors and not empty.
abbrev pub contents : List (Option Bytes) → List Item
contents [] = []
contents (none ∷ chunks) = contents chunks
contents (some [] ∷ chunks) = contents chunks
contents (some (b ∷ bs) ∷ chunks) = content (b ∷ bs) ∷ contents chunks

-- How a body of so many bytes ends, if `len` was announced.
abbrev pub ending : ℕ → ℕ → Item
ending total len = if total == len then stdin_end else abort

abbrev pub body_items : Option ℕ → List (Option Bytes) → List Item
body_items none chunks = stdin_end ∷ []
body_items (some len) chunks = contents chunks ++ (ending (length (body_bytes chunks)) len ∷ [])

abbrev pub Fits : Option ℕ → List (Option Bytes) → Type 0
Fits none chunks = Unit
Fits (some len) chunks = (len < 2 ^ 64) × (length (body_bytes chunks) < 2 ^ 64)

module _ (H : HeaderMap) (s : Strategies) where
  -- The parameters in front of a header that is refused.
  abbrev pub params_before : List (Bytes × Bytes) → HttpRequest H → List Bytes → List NameValuePair
  params_before dyn_headers req before =
      fixed_params H s dyn_headers req ++ header_pairs H s req.headers before

  abbrev pub head_items : List (Bytes × Bytes) → HttpRequest H → Option (List Bytes) → List Item
  head_items dyn_headers req none =
      head (encodings (cgi_params H s dyn_headers req))
      ∷ body_items (announced req.size_upper req.size_lower) req.chunks
  head_items dyn_headers req (some before) =
      refused (encodings (params_before dyn_headers req before)) ∷ []

  -- What the sender still has to write.
  abbrev pub items : Sender H → List Item
  items (opens dyn_headers req) =
      head_items dyn_headers req (split_refused H s req.headers (H.keys req.headers))
  items (sends len chunks) = body_items (some len) chunks
  items (closed o) = []

  abbrev pub IsHead : List (Bytes × Bytes) → HttpRequest H → Option (List Bytes) → Type 0
  IsHead dyn_headers req none =
      All IsEncodable (cgi_params H s dyn_headers req)
      × Fits (announced req.size_upper req.size_lower) req.chunks
  IsHead dyn_headers req (some before) = All IsEncodable (params_before dyn_headers req before)

  -- The parameters, up to a header that is refused, can be encoded, and the lengths are those of a
  -- `usize`.
  abbrev pub IsSendable : Sender H → Type 0
  IsSendable (opens dyn_headers req) =
      IsHead dyn_headers req (split_refused H s req.headers (H.keys req.headers))
  IsSendable (sends len chunks) = Fits (some len) chunks
  IsSendable (closed o) = Unit

-- The turns that a sender takes at most.
abbrev pub turns_left : {H : HeaderMap} → Sender H → ℕ
turns_left (opens dyn_headers req) = suc (suc (length req.chunks))
turns_left (sends len chunks) = suc (length chunks)
turns_left (closed o) = 0

abbrev pub tagged : ℕ → List Item → List (ℕ × Item)
tagged rid its = map (λ item. (rid, item)) its

pub Row-append :
    {log1 log2 : List (ℕ × Item)} {out1 out2 : Bytes}
    → Row log1 out1
    → Row log2 out2
    → Row (log1 ++ log2) (out1 ++ out2)
Row-append nil row2 = row2
Row-append {out2} (cons out {rest} i row1) row2 =
    rw (append_assoc out rest out2) (cons out i (Row-append row1 row2))

pub one-Row :
    (rid : ℕ) (item : Item) (out : Bytes) → IsItem rid item out → Row (tagged rid (item ∷ [])) out
one-Row rid item out i = rw (append-nil out) at (cons out i nil)

pub of_request-tagged :
    (k rid : ℕ) (its : List Item) (log : List (ℕ × Item))
    → of_request k (tagged rid its ++ log) ≡ (if rid == k then its else []) ++ of_request k log
of_request-tagged k rid its log = elim (Bool-cases (rid == k)) [
  | inl e ↦ rw (e) (mine its e)
  | inr e ↦ rw (e) (others its e)
]
  where
    mine :
        (its : List Item)
        → (rid == k) ≡ true
        → of_request k (tagged rid its ++ log) ≡ its ++ of_request k log
    mine [] e = refl
    mine (item ∷ its) e = rw (e) (ap (◌∷◌ item) (mine its e))

    others :
        (its : List Item)
        → (rid == k) ≡ false
        → of_request k (tagged rid its ++ log) ≡ of_request k log
    others [] e = refl
    others (item ∷ its) e = rw (e) (others its e)

-- What is left of the announced length, and of the body, behind a chunk.
pub ending-sub_assign :
    (n total len : ℕ)
    → len < 2 ^ 64
    → n + total < 2 ^ 64
    → ending total (sub_assign len n) ≡ ending (n + total) len
unfolding sub_assign
ending-sub_assign n total len h k = elim (Bool-cases (n + total == len)) [
  | inl e ↦ rw (e, whole e) refl
  | inr e ↦ rw (e, other e) refl
]
  where
    whole : (n + total == len) ≡ true → (total == (len + 2 ^ 64 - n) % 2 ^ 64) ≡ true
    whole e = ground arith

    other : (n + total == len) ≡ false → (total == (len + 2 ^ 64 - n) % 2 ^ 64) ≡ false
    other e = ground arith
