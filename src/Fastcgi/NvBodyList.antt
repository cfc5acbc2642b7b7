-- ===== src/Fastcgi/NvBodyList.antt =====
-- fastcgi.rs: `NVBodyList`, as many bodies as the pairs need.
pub mod Laws
use async_fcgi.Base.{List, [], ◌∷◌, ◌++◌, Option, none, some, if◌then◌else◌, not}
use async_fcgi.Base.Result.{Res, ok, panic, ◌>>=◌}
use async_fcgi.Bytes.{Bytes}
use async_fcgi.Fastcgi.NameValuePair.{NameValuePair}
use async_fcgi.Fastcgi.NameValuePair
use async_fcgi.Fastcgi.NvBody.{NvBody, added, refused}
use async_fcgi.Fastcgi.NvBody

pub record NvBodyList : Type 0 where
  pub bodies : List NvBody

unfoldable pub new : NvBodyList
new = record { bodies = NvBody.new ∷ [] }

-- `bodies.last_mut()`: the last body, and those in front of it.
split_last : List NvBody → Option (List NvBody × NvBody)
split_last [] = none
split_last (b ∷ []) = some ([], b)
split_last (b ∷ (c ∷ r)) = elim (split_last (c ∷ r)) [
  | none ↦ none
  | some (front, l) ↦ some (b ∷ front, l)
]

-- `nv.add(pair).expect(…)` on the body behind `front`.
add_behind : List NvBody → NvBody → NameValuePair → Res NvBodyList
add_behind front nv pair =
    let (nv', result) = NvBody.add nv pair in
    elim result [ added ↦ ok (record { bodies = front ++ (nv' ∷ []) }) | refused ↦ panic ]

unfoldable pub add : NvBodyList → NameValuePair → Res NvBodyList
unfolding split_last add_behind
add l pair = elim (split_last l.bodies) [
  | none ↦ panic
  | some (front, nv) ↦
      if not (NvBody.fits nv pair)
      then add_behind (front ++ (nv ∷ [])) NvBody.new pair
      else add_behind front nv pair
]

pub extend : NvBodyList → List (Bytes × Bytes) → Res NvBodyList
extend l [] = ok l
extend l ((k, v) ∷ iter) = do l' ← add l (NameValuePair.new k v); extend l' iter

pub from_iter : List (Bytes × Bytes) → Res NvBodyList
from_iter iter = extend new iter
