-- ===== src/Client/TurnsExamples.antt =====
-- client/connection.rs: two requests that are sent at the same time.
use async_fcgi.Base.{ℕ, zero, suc, ◌≡◌, refl, arith, List, [], ◌∷◌, some}
use async_fcgi.Codec.Io.{done}
use async_fcgi.Client.Params.{announced}
use async_fcgi.Client.Turns.{opens, closed, Senders}
use async_fcgi.Client.Turns.Items.{IsSendable, Fits, items, of_request}
use async_fcgi.Client.Turns.Refused.{split_refused}
use async_fcgi.Client.Headers.{contains_key, refuses, contains_newline, header_value, combine_loop}
use async_fcgi.Client.ConPool.{same_bytes}
use async_fcgi.Client.Turns.Served.{Served, take_turns-isolates}
use async_fcgi.Client.ForwardExamples.{
  table, blank, strategies, rows, post, dyn_headers, post-IsEncodable, bad_rows, bad-IsEncodable,
  table_keys, table_get_all,
}

-- The requests 1 and 2; the second has a header that is refused.
abbrev two : Senders table
two zero = closed (done tt)
two (suc zero) = opens dyn_headers (post rows)
two (suc (suc zero)) = opens dyn_headers (post bad_rows)
two (suc (suc (suc k))) = closed (done tt)

-- The second request starts, and ends, between the head and the body of the first.
abbrev schedule : List ℕ
schedule = 1 ∷ 2 ∷ 1 ∷ 1 ∷ 2 ∷ 1 ∷ []

post-Fits : Fits (announced (some 2) 2) (post rows).chunks
unfolding announced
post-Fits = (omega arith, omega arith)

post-IsSendable : IsSendable table strategies (opens dyn_headers (post rows))
unfolding split_refused table_keys contains_key refuses contains_newline header_value combine_loop
    table_get_all same_bytes
post-IsSendable = (post-IsEncodable, post-Fits)

bad-IsSendable : IsSendable table strategies (opens dyn_headers (post bad_rows))
unfolding split_refused table_keys contains_key refuses contains_newline header_value combine_loop
    table_get_all same_bytes
bad-IsSendable = bad-IsEncodable

two-IsSendable : (k : ℕ) → IsSendable table strategies (two k)
two-IsSendable zero = tt
two-IsSendable (suc zero) = post-IsSendable
two-IsSendable (suc (suc zero)) = bad-IsSendable
two-IsSendable (suc (suc (suc k))) = tt

take_turns-isolates_example :
    (r : Served blank table strategies schedule two) × (items table strategies (two 1)
      ≡ of_request 1 r.log)
take_turns-isolates_example =
    take_turns-isolates blank table strategies schedule two 1 refl two-IsSendable (omega arith)
