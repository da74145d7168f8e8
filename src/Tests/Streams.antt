-- ===== src/Tests/Streams.antt =====
-- A stream of two lines.
use llmproxy.Common.{◌≡◌, refl, false, [], ◌∷◌, none}
use llmproxy.Common.Eq.{Bytes}
use llmproxy.Domain.{GoError}
use llmproxy.Http.{ResponseWriter}
use llmproxy.RetryRecorder.{new_recorder}
use llmproxy.RetryRecorder.Buffering.{Kept, silent}
use llmproxy.Stream.{Decoder, split_lines, scan, drop_cr, forward_stream}
use llmproxy.Stream.Lines.{Forwarded, forward_stream-Forwarded}

abbrev client : ResponseWriter
client = record { header = []; sent = none; body = []; broken = false }

abbrev decoder : Decoder
decoder = record { chunk = λ b. none; responses = λ b. none }

abbrev broken_pipe : GoError
broken_pipe = record { deadline_exceeded = false; cancelled = false; text = "broken pipe" }

-- The first line ends with a carriage return, and the last has no newline.
abbrev two_lines : Bytes
two_lines = 97 ∷ 13 ∷ 10 ∷ 98 ∷ []

scan_run : scan (split_lines two_lines) ≡ ((97 ∷ []) ∷ (98 ∷ []) ∷ [], false)
unfolding scan split_lines drop_cr
scan_run = refl

new-Kept : Kept client [] (new_recorder client)
unfolding new_recorder
new-Kept = silent refl refl refl (refl, refl)

forward_stream-Forwarded_example :
    Forwarded client []
      (scan (split_lines two_lines)).0
      (forward_stream decoder (λ i. none) broken_pipe two_lines none (new_recorder client))
forward_stream-Forwarded_example =
    forward_stream-Forwarded client refl refl decoder (λ i. none) broken_pipe (λ i. refl) two_lines
      [] none (new_recorder client) new-Kept
