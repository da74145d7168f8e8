-- ===== src/Stream/Lines.antt =====
-- What a stream leaves with the client and in the result, as long as the context is not done.
use llmproxy.Common.{
  ℕ, ◌+◌, ◌≡◌, refl, sym, ap, ◌∙◌, Bool, true, false, not, List, [], ◌∷◌, ◌++◌, append-nil,
  append_assoc, Option, none, some, arith, if_prove, Option-cases, inl, inr,
}
use llmproxy.Common.Int.{ℤ, pos, ltb_ℤ}
use llmproxy.Common.Eq.{Bytes, codes, bytes_eq}
use llmproxy.Domain.{GoError}
use llmproxy.Http.{ResponseWriter}
use llmproxy.RetryRecorder.{Recorder, write}
use llmproxy.RetryRecorder.Buffering.{Kept, write-Kept, write_ok}
use llmproxy.Stream.{
  Decoder, Chunk, Progress, StreamResult, begin, after_prefix, trim_left, trim_right, take_chunk,
  take_responses, from_chunk, from_responses, account_payload, account_after, account, split_lines,
  scan, stream_loop, finish_stream, forward_stream, result_of,
}

-- The lines, each with its newline.
unfoldable pub joined : List Bytes → Bytes
joined [] = []
joined (l ∷ ls) = (l ++ 10 ∷ []) ++ joined ls

take_chunk-lines : (c : Chunk) (p : Progress) → (take_chunk c p).lines ≡ p.lines
unfolding take_chunk
take_chunk-lines c p = elim (Option-cases c.usage) [ inl e ↦ rw e refl | inr (u, e) ↦ rw e refl ]

take_responses-lines : (u : ℤ × ℤ) (p : Progress) → (take_responses u p).lines ≡ p.lines
unfolding take_responses
take_responses-lines (input, output) p =
    if_prove (λ (z : Progress). z.lines ≡ p.lines) (ltb_ℤ (pos 0) input) (λ _. refl) (λ _. refl)

from_chunk-lines : (c : Option Chunk) (p : Progress) → (from_chunk c p).lines ≡ p.lines
unfolding from_chunk
from_chunk-lines none p = refl
from_chunk-lines (some c) p = take_chunk-lines c p

from_responses-lines : (u : Option (ℤ × ℤ)) (p : Progress) → (from_responses u p).lines ≡ p.lines
unfolding from_responses
from_responses-lines none p = refl
from_responses-lines (some u) p = take_responses-lines u p

account_payload-lines :
    (d : Decoder) (payload : Bytes) (p : Progress) → (account_payload d payload p).lines ≡ p.lines
unfolding account_payload
account_payload-lines d payload p =
    let P : Progress → Type 0 = λ z. z.lines ≡ p.lines in
    let counted = from_chunk (d.chunk payload) p in
    if_prove P (bytes_eq (trim_right (trim_left payload)) (codes "[DONE]")) (λ _. refl)
      (λ _.
        if_prove P counted.usage_found (λ _. from_chunk-lines (d.chunk payload) p)
          (λ _.
            from_responses-lines (d.responses payload) counted
            ∙ from_chunk-lines (d.chunk payload) p))

account_after-lines :
    (d : Decoder) (payload : Option Bytes) (p : Progress)
    → (account_after d payload p).lines ≡ p.lines
unfolding account_after
account_after-lines d none p = refl
account_after-lines d (some payload) p = account_payload-lines d payload p

account-lines : (d : Decoder) (line : Bytes) (p : Progress) → (account d line p).lines ≡ p.lines
unfolding account
account-lines d line p = account_after-lines d (after_prefix (codes "data: ") line) p

-- What `ForwardStream` leaves of the lines that the scanner yields, for a recorder of the client's
-- writer `w` that has been handed the bytes before.
abbrev pub Forwarded :
    ResponseWriter → Bytes → List Bytes → Recorder × StreamResult × Option GoError → Type 0
Forwarded w bs ls (r, res, e) = Kept w (bs ++ joined ls) r × (res.raw_lines ≡ ls)

module _ (w : ResponseWriter) (open_ : w.sent ≡ none) (sound : w.broken ≡ false) (d : Decoder)
    (ctx_done : ℕ → Option GoError) (write_error : GoError)
    (live : (i : ℕ) → ctx_done i ≡ none) where
  -- What the loop leaves of some lines.
  Passed : Bytes → List Bytes → Progress → Recorder × Progress × Option GoError → Type 0
  Passed bs ls p (r', p', e) = Kept w (bs ++ joined ls) r' × (p'.lines ≡ p.lines ++ ls) × (e ≡ none)

  Passed-cons :
      (bs l : Bytes) (ls : List Bytes) (p : Progress) (z : Recorder × Progress × Option GoError)
      → Passed (bs ++ (l ++ 10 ∷ [])) ls (account d l (record p { lines = p.lines ++ l ∷ [] })) z
      → Passed bs (l ∷ ls) p z
  unfolding Passed joined
  Passed-cons bs l ls p (r', p', e) (kept, seen, fine) =
      let more = account-lines d l (record p { lines = p.lines ++ l ∷ [] }) in
      (
        rw (← append_assoc bs (l ++ 10 ∷ []) (joined ls)) kept,
        seen ∙ ap (λ z. z ++ ls) more ∙ append_assoc p.lines (l ∷ []) ls,
        fine,
      )

  stream_loop-Passed :
      (i : ℕ) (ls : List Bytes) (p : Progress) (bs : Bytes) (r : Recorder)
      → Kept w bs r
      → Passed bs ls p (stream_loop d ctx_done write_error i ls p r)
  unfolding stream_loop Passed joined
  stream_loop-Passed i [] p bs r k = (rw (append-nil bs) k, sym (append-nil p.lines), refl)
  stream_loop-Passed i (l ∷ ls) p bs r k =
      let seen = record p { lines = p.lines ++ l ∷ [] } in
      let next =
        stream_loop-Passed (i + 1) ls (account d l seen) (bs ++ (l ++ 10 ∷ [])) _
          (write-Kept w open_ sound (l ++ 10 ∷ []) bs r k) in
      rw (live i, stream_loop)
        (if_prove (Passed bs (l ∷ ls) p) (not (write (l ++ 10 ∷ []) r).1)
          (λ broke. absurd (ground (arith, broke, write_ok w open_ sound (l ++ 10 ∷ []) bs r k)))
          (λ _.
            Passed-cons bs l ls p
              (stream_loop d ctx_done write_error (i + 1) ls (account d l seen)
                (write (l ++ 10 ∷ []) r).0)
              next))

  finish_stream-Forwarded :
      (bs : Bytes) (ls : List Bytes) (overflow : Bool) (read_error : Option GoError)
      (z : Recorder × Progress × Option GoError)
      → Passed bs ls begin z
      → Forwarded w bs ls (finish_stream d ctx_done write_error overflow read_error z)
  unfolding finish_stream Passed result_of
  finish_stream-Forwarded bs ls overflow read_error (r, p, some e) (kept, seen, fine) = (kept, seen)
  finish_stream-Forwarded bs ls true read_error (r, p, none) (kept, seen, fine) = (kept, seen)
  finish_stream-Forwarded bs ls false (some e) (r, p, none) (kept, seen, fine) = (kept, seen)
  finish_stream-Forwarded bs ls false none (r, p, none) (kept, seen, fine) =
      (kept, if_prove (λ (z : Progress). z.lines ≡ ls) p.usage_found (λ _. seen) (λ _. seen))

  -- While the context is not done, `ForwardStream` passes every line that the scanner yields on to
  -- the recorder of a client's writer that works, in order and each with a newline, whether the
  -- upstream then ends the stream or breaks it; the result lists the same lines. What the recorder
  -- does with the bytes is what `Kept` says.
  pub forward_stream-Forwarded :
      (content bs : Bytes) (read_error : Option GoError) (r : Recorder)
      → Kept w bs r
      → Forwarded w bs
          (scan (split_lines content)).0
          (forward_stream d ctx_done write_error content read_error r)
  unfolding forward_stream
  forward_stream-Forwarded content bs read_error r k =
      let scanned = scan (split_lines content) in
      finish_stream-Forwarded bs scanned.0 scanned.1 read_error _
        (stream_loop-Passed 0 scanned.0 begin bs r k)
