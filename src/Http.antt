-- ===== src/Http.antt =====
-- The part of net/http that the program relies on: header maps, a response writer of the server and
-- the exchange with an upstream.
use Prim.Native.String.{String}
use llmproxy.Common.{
  ◌&&◌, Bool, true, false, List, [], ◌∷◌, ◌++◌, Option, none, some, if◌then◌else◌,
}
use llmproxy.Common.Int.{ℤ, pos, leb_ℤ}
use llmproxy.Common.Eq.{Bytes, Dict, lookup, insert, string_instance}

-- The keys are in canonical form.
abbrev pub Header : Type 0
Header = Dict String (List String)

abbrev pub values : String → Header → List String
values k h = elim (lookup k h) [ none ↦ [] | some vs ↦ vs ]

-- `h.Set(k, v)` and `h.Add(k, v)`
unfoldable pub header_set : String → String → Header → Header
header_set k v h = insert k (v ∷ []) h

unfoldable pub header_add : String → String → Header → Header
header_add k v h = insert k (values k h ++ v ∷ []) h

add_values : String → List String → Header → Header
add_values k [] h = h
add_values k (v ∷ vs) h = add_values k vs (header_add k v h)

-- The two loops that add every value of one map to another.
unfoldable pub add_all : Header → Header → Header
unfolding add_values
add_all [] h = h
add_all ((k, vs) ∷ src) h = add_all src (add_values k vs h)

-- What the client of the proxy gets: the status and the headers are sent once, with the first
-- `WriteHeader`. A `Write` fails when the connection is broken.
pub record ResponseWriter : Type 0 where
  pub header : Header
  pub sent : Option (ℤ × Header)
  pub body : Bytes
  pub broken : Bool

-- A code that the server sends as it is: net/http panics below 100 and above 999. It sends those of
-- 1xx apart, but for 101; its client does not hand the others on, so that the program has none.
abbrev pub is_sendable : ℤ → Bool
is_sendable status_code = leb_ℤ (pos 100) status_code && leb_ℤ status_code (pos 999)

-- The code is one that the server sends; a caller that takes it from an upstream checks that first.
unfoldable pub write_header : ℤ → ResponseWriter → ResponseWriter
write_header status_code w = elim w.sent [
  | none ↦ record w { sent = some (status_code, w.header) }
  | some _ ↦ w
]

-- `false` is an error.
unfoldable pub write : Bytes → ResponseWriter → ResponseWriter × Bool
unfolding write_header
write b w =
    let ready = write_header (pos 200) w in
    if w.broken then (ready, false) else (record ready { body = ready.body ++ b }, true)
