-- ===== src/Client/Response/Head.antt =====
-- client/connection.rs: the loop of `create_response` over the frames that it gets, and its status.
use async_fcgi.Base.{ℕ, ◌<◌, ◌≤◌, ◌≡◌, refl, ap, sym, ◌∙◌, arith, inl, inr}
use async_fcgi.Base.{
  List, [], ◌∷◌, ◌++◌, Option, none, some, length, length-append, take, flatten, leb, ltb,
  if◌then◌else◌, Bool-cases, ltb→lt, not_ltb→le, append_assoc, append_split,
}
use async_fcgi.Base.Result.{Res, ok, panic}
use async_fcgi.Bytes.{Bytes}
use async_fcgi.Httpparse.{parsed, pending, parse_err, ResponseMap, RawHeader, Status, parse}
use async_fcgi.Httpparse.Laws.{IsHead, head_map, parse-pending, parse-parsed}
use async_fcgi.Client.Response.{join}

-- `Status`, as the crate `http` writes it.
abbrev pub status_key : Bytes
status_key = 115 ∷ 116 ∷ 97 ∷ 116 ∷ 117 ∷ 115 ∷ []

-- What `create_response` knows when its loop ends: the status, the headers, the bytes behind the head,
-- and the frames that were not read. The bytes go back to the request, as `give_back` does it.
pub record Head (R : ResponseMap) : Type 0 where
  pub status : ℕ
  pub headers : R.Map
  pub bodydata : Bytes
  pub frames : List Bytes

-- `status_code` is `StatusCode::from_bytes` of the crate `http`.
module _ (R : ResponseMap) (header_name : Bytes → Option Bytes)
    (parse_headers : Bytes → Option Status) (status_code : Bytes → Option ℕ) where
  code_or_ok : Option ℕ → ℕ
  code_or_ok none = 200
  code_or_ok (some s) = s

  status_in : List Bytes → ℕ
  unfolding code_or_ok
  status_in [] = 200
  status_in (stat ∷ stats) =
      if leb 3 (length stat) then code_or_ok (status_code (take 3 stat)) else 200

  pub status_of : R.Map → ℕ
  unfolding status_in
  status_of m = status_in (R.get_all m status_key)

  -- The status that headers say: the first three bytes of the first `Status` header, if they are a
  -- status, and otherwise 200.
  pub data SaysStatus (m : R.Map) : ℕ → Type 0 where
    says_nothing : R.get_all m status_key ≡ [] → SaysStatus m 200
    too_few :
        (stat : Bytes) (stats : List Bytes)
        → R.get_all m status_key ≡ stat ∷ stats
        → length stat < 3
        → SaysStatus m 200
    no_status :
        (stat : Bytes) (stats : List Bytes)
        → R.get_all m status_key ≡ stat ∷ stats
        → 3 ≤ length stat
        → status_code (take 3 stat) ≡ none
        → SaysStatus m 200
    says :
        (stat : Bytes) (stats : List Bytes) (s : ℕ)
        → R.get_all m status_key ≡ stat ∷ stats
        → 3 ≤ length stat
        → status_code (take 3 stat) ≡ some s
        → SaysStatus m s

  status_in-SaysStatus :
      (m : R.Map) (stats : List Bytes)
      → R.get_all m status_key ≡ stats
      → SaysStatus m (status_in stats)
  unfolding status_in code_or_ok
  status_in-SaysStatus m [] e = says_nothing e
  status_in-SaysStatus m (stat ∷ stats) e = elim (Bool-cases (leb 3 (length stat))) [
    | inl enough ↦ rw (enough) (coded (ground arith) (status_code (take 3 stat)) refl)
    | inr short ↦ rw (short) (too_few stat stats e (ground arith))
  ]
    where
      coded :
          3 ≤ length stat
          → (code : Option ℕ) → status_code (take 3 stat) ≡ code
          → SaysStatus m (code_or_ok code)
      coded enough none c = no_status stat stats e enough c
      coded enough (some s) c = says stat stats s e enough c

  status_of-SaysStatus : (m : R.Map) → SaysStatus m (status_of m)
  unfolding status_of
  status_of-SaysStatus m = status_in-SaysStatus m (R.get_all m status_key) refl

  -- The loop of `create_response`; it ends when there are no more frames.
  head_loop : Option Bytes → R.Map → List Bytes → Res (Head R)
  head_loop buf m [] = ok (record { status = 200; headers = m; bodydata = []; frames = [] })
  head_loop buf m (b ∷ frames) = elim (parse R header_name parse_headers (join buf b) m) [
    | panic ↦ panic
    | ok (parsed bodydata, m1) ↦
        ok (record { status = status_of m1; headers = m1; bodydata = bodydata; frames = frames })
    | ok (pending, m1) ↦ head_loop (some (join buf b)) m1 frames
    | ok (parse_err, m1) ↦
        ok (record { status = 500; headers = m1; bodydata = []; frames = frames })
  ]

  pub create_response : List Bytes → Res (Head R)
  unfolding head_loop
  create_response frames = head_loop none R.empty frames

  module _ (head : Bytes) (headers : List RawHeader)
      (is_head : IsHead header_name parse_headers head headers) where
    head_loop-pending :
        (buf : Option Bytes) (b back : Bytes) (frames : List Bytes) (m : R.Map)
        → join buf b ++ back ≡ head
        → 0 < length back
        → head_loop buf m (b ∷ frames) ≡ head_loop (some (join buf b)) m frames
    unfolding head_loop
    head_loop-pending buf b back frames m e more =
        rw
          (
            head_loop,
            parse-pending R header_name parse_headers head headers is_head (join buf b) back m e
                more,
          )
          refl

    head_loop-parsed :
        (buf : Option Bytes) (b rest : Bytes) (frames : List Bytes) (m : R.Map)
        → join buf b ≡ head ++ rest
        → head_loop buf m (b ∷ frames)
          ≡ ok (record {
            status = status_of (head_map R header_name parse_headers head headers is_head m);
            headers = head_map R header_name parse_headers head headers is_head m;
            bodydata = rest;
            frames = frames;
          })
    unfolding head_loop
    head_loop-parsed buf b rest frames m e =
        rw (head_loop, e, parse-parsed R header_name parse_headers head headers is_head rest m) refl

    too_short : (left rest : Bytes) → left ++ [] ≡ head ++ rest → ¬ (length left < length head)
    too_short left rest e short =
        omega (arith, ap length e, length-append head rest, length-append left [])

    abbrev kept : Option Bytes → Bytes
    kept none = []
    kept (some left) = left

    kept-join : (buf : Option Bytes) (b : Bytes) → join buf b ≡ kept buf ++ b
    kept-join none b = refl
    kept-join (some left) b = refl

    -- The head was found, and the bytes behind it with the frames that are left are `rest`.
    pub record IsFound (m : R.Map) (rest : Bytes) (res : Res (Head R)) : Type 0 where
      pub found : Head R
      pub is_ok : res ≡ ok found
      pub is_headers : found.headers ≡ head_map R header_name parse_headers head headers is_head m
      pub is_status : SaysStatus found.headers found.status
      pub body_whole : found.bodydata ++ flatten found.frames ≡ rest

    head_loop-IsFound :
        (frames : List Bytes) (buf : Option Bytes) (m : R.Map) (rest : Bytes)
        → kept buf ++ flatten frames ≡ head ++ rest
        → length (kept buf) < length head
        → IsFound m rest (head_loop buf m frames)
    head_loop-IsFound [] buf m rest e short = absurd (too_short (kept buf) rest e short)
    head_loop-IsFound (b ∷ frames) buf m rest e short =
        elim (Bool-cases (ltb (length (join buf b)) (length head))) [
          | inl less ↦
              let (t, is_front, behind) =
                append_split head rest (join buf b) (flatten frames) (sym joined)
                  (omega (arith, ltb→lt _ _ less)) in
              rw
                (head_loop-pending buf b t frames m (sym is_front) (
                  omega (arith, ltb→lt _ _ less, ap length is_front, length-append (join buf b) t)))
                (head_loop-IsFound frames (some (join buf b)) m rest joined (ltb→lt _ _ less))
          | inr enough ↦
              let (t, is_whole, behind) =
                append_split (join buf b) (flatten frames) head rest joined
                  (not_ltb→le _ _ enough) in
              record {
                found = _;
                is_ok = head_loop-parsed buf b t frames m is_whole;
                is_headers = refl;
                is_status =
                    status_of-SaysStatus
                      (head_map R header_name parse_headers head headers is_head m);
                body_whole = behind;
              }
        ]
      where
        joined : join buf b ++ flatten frames ≡ head ++ rest
        joined = rw (kept-join buf b, append_assoc (kept buf) b (flatten frames)) e

    -- Let httparse find a head of at least one byte with its headers whatever follows it, and
    -- report every shorter front of it as partial. However a head with bytes behind it is cut
    -- into frames, `create_response` finds the head, takes its headers and the status that they
    -- say, the first three bytes of the first `Status` if they are one and otherwise 200, and the
    -- bytes that it gives back with the frames that it leaves are just the bytes behind the head.
    pub create_response-IsFound :
        (frames : List Bytes) (rest : Bytes)
        → flatten frames ≡ head ++ rest
        → 0 < length head
        → IsFound R.empty rest (create_response frames)
    unfolding create_response
    create_response-IsFound frames rest e some_byte =
        head_loop-IsFound frames none R.empty rest e some_byte

    head_loop-cut :
        (frames : List Bytes) (buf : Option Bytes) (m : R.Map) (back : Bytes)
        → (kept buf ++ flatten frames) ++ back ≡ head
        → 0 < length back
        → head_loop buf m frames
          ≡ ok (record { status = 200; headers = m; bodydata = []; frames = [] })
    head_loop-cut [] buf m back e more = unfold head_loop in refl
    head_loop-cut (b ∷ frames) buf m back e more =
        head_loop-pending buf b (flatten frames ++ back) frames m
          (sym (append_assoc (join buf b) (flatten frames) back) ∙ joined)
          (omega (arith, length-append (flatten frames) back))
        ∙ head_loop-cut frames (some (join buf b)) m back joined more
      where
        joined : (join buf b ++ flatten frames) ++ back ≡ head
        joined = rw (kept-join buf b, append_assoc (kept buf) b (flatten frames)) e

    -- Let httparse find a head with its headers whatever follows it, and report every shorter
    -- front of it as partial. If the output of the application ends within its head,
    -- `create_response` answers with the status 200, without headers, and drops the bytes that
    -- were read.
    pub create_response_cut :
        (frames : List Bytes) (back : Bytes)
        → flatten frames ++ back ≡ head
        → 0 < length back
        → create_response frames
          ≡ ok (record { status = 200; headers = R.empty; bodydata = []; frames = [] })
    unfolding create_response
    create_response_cut frames back e more = head_loop-cut frames none R.empty back e more
