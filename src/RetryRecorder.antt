-- ===== src/RetryRecorder.antt =====
-- internal/worker/pool.go, `retryableRecorder`: the writer that an attempt writes its response to. It
-- holds the client's writer `w`, which nobody else writes to during the attempt. `Flush` passes on
-- what the client's writer has got, and changes nothing that the program reads.
pub mod Buffering
use Prim.Native.String.{String}
use llmproxy.Common.{
  ℕ, ◌≡◌, refl, Bool, true, false, not, List, [], ◌∷◌, ◌++◌, Option, none, some, arith,
  if◌then◌else◌, ◌⊎◌, inl, inr, if_prove, Bool-cases,
}
use llmproxy.Common.Int.{ℤ, pos, eqb_ℤ}
use llmproxy.Common.Eq.{Bytes, Dict, insert, string_instance}
use llmproxy.Logging.{classify_error, is_retryable}
use llmproxy.Http
use llmproxy.Http.{Header, ResponseWriter}

pub record Recorder : Type 0 where
  pub w : ResponseWriter
  pub header : Header
  pub status_code : ℤ
  pub wrote_header : Bool
  pub body : Bytes
  pub committed : Bool

unfoldable pub new_recorder : ResponseWriter → Recorder
new_recorder w = record {
  w = w;
  header = [];
  status_code = pos 0;
  wrote_header = false;
  body = [];
  committed = false;
}

-- `for k, v := range src { h[k] = v }`
copy_header : Header → Header → Header
copy_header [] h = h
copy_header ((k, vs) ∷ src) h = copy_header src (insert k vs h)

unfoldable pub commit : Recorder → Recorder
unfolding copy_header
commit r =
    let code = if eqb_ℤ r.status_code (pos 0) then pos 200 else r.status_code in
    if r.committed then r else record r {
      committed = true;
      status_code = code;
      w = Http.write_header code (record r.w { header = copy_header r.header r.w.header });
    }

unfoldable pub write_header : ℤ → Recorder → Recorder
unfolding commit
write_header code r =
    let marked = record r { status_code = code; wrote_header = true } in
    if r.wrote_header
    then r
    else if is_retryable (classify_error none code)
    then marked
    else commit marked

-- The part of `Write` after the header. `false` is an error; the buffer takes every write.
unfoldable pub emit : Bytes → Recorder → Recorder × Bool
emit b r =
    if r.committed
    then (record r { w = (Http.write b r.w).0 }, (Http.write b r.w).1)
    else (record r { body = r.body ++ b }, true)

unfoldable pub write : Bytes → Recorder → Recorder × Bool
unfolding write_header emit
write b r = emit b (if r.wrote_header then r else write_header (pos 200) r)
