-- ===== src/Stream.antt =====
-- internal/proxy/stream.go: the lines of a server-sent stream are passed on to the client, and the
-- tokens are counted on the way. The JSON decoder for the two chunk types is a parameter.
pub mod Lines
use llmproxy.Common.{
  ℕ, ◌+◌, ◌/◌, ◌==◌, Bool, true, false, ◌&&◌, ◌||◌, not, List, [], ◌∷◌, ◌++◌, Option, none, some,
  ltb, leb, length, if◌then◌else◌,
}
use llmproxy.Common.Int.{ℤ, pos, ltb_ℤ}
use llmproxy.Common.Eq.{Bytes, bytes_eq, codes}
use llmproxy.Domain.{GoError}
use llmproxy.RetryRecorder.{Recorder, write}

pub record StreamResult : Type 0 where
  pub prompt_tokens : ℤ
  pub completion_tokens : ℤ
  pub full_content : Bytes
  pub raw_lines : List Bytes

-- One decoded chunk: the contents of its choices and its usage, `(prompt, completion)`.
pub record Chunk : Type 0 where
  pub contents : List Bytes
  pub usage : Option (ℤ × ℤ)

-- What `json.Unmarshal` yields for a payload in either form, `none` for an error; the second is the
-- usage `(input, output)`, with 0 for what is missing.
pub record Decoder : Type 0 where
  pub chunk : Bytes → Option Chunk
  pub responses : Bytes → Option (ℤ × ℤ)

-- `accumulated` is both `accumulatedContent` and `FullContent`, which get the same writes.
pub record Progress : Type 0 where
  pub prompt : ℤ
  pub completion : ℤ
  pub accumulated : Bytes
  pub lines : List Bytes
  pub usage_found : Bool

abbrev pub begin : Progress
begin = record {
  prompt = pos 0;
  completion = pos 0;
  accumulated = [];
  lines = [];
  usage_found = false;
}

-- The rest of the line after a prefix.
unfoldable pub after_prefix : Bytes → Bytes → Option Bytes
after_prefix [] line = some line
after_prefix (b ∷ prefix) [] = none
after_prefix (b ∷ prefix) (c ∷ line) =
    let rest = after_prefix prefix line in if b == c then rest else none

-- `strings.TrimSpace`, for the spaces of ASCII.
abbrev is_space : ℕ → Bool
is_space b = (b == 32) || (leb 9 b && leb b 13)

unfoldable pub trim_left : Bytes → Bytes
trim_left [] = []
trim_left (b ∷ s) = let rest = trim_left s in if is_space b then rest else b ∷ s

unfoldable pub trim_right : Bytes → Bytes
trim_right [] = []
trim_right (b ∷ s) = elim (trim_right s) [
  | [] ↦ if is_space b then [] else b ∷ []
  | ◌∷◌ c t ↦ b ∷ c ∷ t
]

unfoldable pub concat : List Bytes → Bytes
concat [] = []
concat (b ∷ bs) = b ++ concat bs

-- The usage and the contents of a chunk.
unfoldable pub take_chunk : Chunk → Progress → Progress
unfolding concat
take_chunk c p =
    let p' : Progress = elim c.usage [
      | none ↦ p
      | some u ↦ record p { prompt = u.0; completion = u.1; usage_found = true }
    ] in
    record p' { accumulated = p.accumulated ++ concat c.contents }

unfoldable pub take_responses : ℤ × ℤ → Progress → Progress
take_responses (input, output) p =
    if ltb_ℤ (pos 0) input
    then record p { prompt = input; completion = output; usage_found = true }
    else p

-- A payload that does not decode changes nothing.
unfoldable pub from_chunk : Option Chunk → Progress → Progress
unfolding take_chunk
from_chunk none p = p
from_chunk (some c) p = take_chunk c p

unfoldable pub from_responses : Option (ℤ × ℤ) → Progress → Progress
unfolding take_responses
from_responses none p = p
from_responses (some u) p = take_responses u p

unfoldable pub account_payload : Decoder → Bytes → Progress → Progress
unfolding from_chunk from_responses trim_left trim_right
account_payload d payload p =
    let counted = from_chunk (d.chunk payload) p in
    if bytes_eq (trim_right (trim_left payload)) (codes "[DONE]")
    then p
    else if counted.usage_found
    then counted
    else from_responses (d.responses payload) counted

unfoldable account_after : Decoder → Option Bytes → Progress → Progress
account_after d none p = p
account_after d (some payload) p = account_payload d payload p

-- What the token count makes of one line.
unfoldable pub account : Decoder → Bytes → Progress → Progress
unfolding after_prefix account_payload account_after
account d line p = account_after d (after_prefix (codes "data: ") line) p

-- `bufio.ScanLines`: the text between the newlines, each without a carriage return at its end.
unfoldable pub split_lines : Bytes → List Bytes
split_lines [] = []
split_lines (b ∷ s) =
    let rest = split_lines s in
    if b == 10 then [] ∷ rest else elim rest [ [] ↦ (b ∷ []) ∷ [] | ◌∷◌ l ls ↦ (b ∷ l) ∷ ls ]

unfoldable pub drop_cr : Bytes → Bytes
drop_cr [] = []
drop_cr (b ∷ []) = if b == 13 then [] else b ∷ []
drop_cr (b ∷ c ∷ s) = b ∷ drop_cr (c ∷ s)

-- The scanner stops, with `true`, at a line that does not fit its buffer.
abbrev max_line : ℕ
max_line = 10_485_760

unfoldable pub scan : List Bytes → List Bytes × Bool
unfolding drop_cr
scan [] = ([], false)
scan (l ∷ ls) =
    let rest = scan ls in
    if leb max_line (length l) then ([], true) else (drop_cr l ∷ rest.0, rest.1)

abbrev too_long : GoError
too_long = record {
  deadline_exceeded = false;
  cancelled = false;
  text = "bufio.Scanner: token too long";
}

-- `len([]rune(s))` of valid UTF-8: the bytes that do not continue a character.
unfoldable pub rune_count : Bytes → ℕ
rune_count [] = 0
rune_count (b ∷ s) = let n = rune_count s in if leb 128 b && ltb b 192 then n else n + 1

-- Half of the characters, and at least one if there is any.
unfoldable pub estimate_tokens : Bytes → ℕ
unfolding rune_count
estimate_tokens content =
    let half = rune_count content / 2 in
    if rune_count content == 0 then 0 else if ltb half 1 then 1 else half

unfoldable result_of : Progress → StreamResult
result_of p = record {
  prompt_tokens = p.prompt;
  completion_tokens = p.completion;
  full_content = p.accumulated;
  raw_lines = p.lines;
}

-- `ctx_done i` is what `ctx.Err()` says before line `i`; `write_error` is the error of a write that
-- fails.
module _ (d : Decoder) (ctx_done : ℕ → Option GoError) (write_error : GoError) where
  unfoldable pub stream_loop :
      ℕ → List Bytes → Progress → Recorder → Recorder × Progress × Option GoError
  stream_loop i [] p r = (r, p, none)
  stream_loop i (line ∷ ls) p r =
      let seen = record p { lines = p.lines ++ line ∷ [] } in
      let sent = write (line ++ 10 ∷ []) r in
      let rest = stream_loop (i + 1) ls (account d line seen) sent.0 in
      elim (ctx_done i) [
        | some e ↦ (r, p, some e)
        | none ↦ if not sent.1 then (sent.0, seen, some write_error) else rest
      ]

  -- The end of `ForwardStream`, after the loop.
  unfoldable pub finish_stream :
      Bool
      → Option GoError
      → Recorder × Progress × Option GoError
      → Recorder × StreamResult × Option GoError
  unfolding result_of estimate_tokens
  finish_stream overflow read_error (r, p, some e) = (r, result_of p, some e)
  finish_stream true read_error (r, p, none) = (r, result_of p, some too_long)
  finish_stream false (some e) (r, p, none) = (r, result_of p, some e)
  finish_stream false none (r, p, none) = (
    r,
    result_of (
        if p.usage_found then p else record p { completion = pos (estimate_tokens p.accumulated) }),
    none,
  )

  unfoldable pub forward_stream :
      Bytes → Option GoError → Recorder → Recorder × StreamResult × Option GoError
  unfolding stream_loop finish_stream scan split_lines
  forward_stream content read_error r =
      let scanned = scan (split_lines content) in
      finish_stream scanned.1 read_error (stream_loop 0 scanned.0 begin r)
