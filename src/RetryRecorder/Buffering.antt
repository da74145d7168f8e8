-- ===== src/RetryRecorder/Buffering.antt =====
-- What reaches the client while an attempt writes its response to the recorder.
use mathlib.Core.List.{append_assoc}
use llmproxy.Common.{
  ◌≡◌, refl, ◌∙◌, sym, ap, Bool, true, false, List, [], ◌∷◌, ◌++◌, append-nil, none, some,
  if◌then◌else◌, if_prove,
}
use llmproxy.Common.Int.{ℤ, pos, eqb_ℤ}
use llmproxy.Common.Eq.{Bytes}
use llmproxy.Logging.{classify_error, is_retryable}
use llmproxy.Http
use llmproxy.Http.{Header, ResponseWriter}
use llmproxy.RetryRecorder.{copy_header, Recorder, new_recorder, commit, write_header, emit, write}

-- What a handler does to the writer that it is given.
pub data Act : Type 0 where
  set_headers : (Header → Header) → Act
  put_status : ℤ → Act
  put : Bytes → Act

unfoldable pub act : Act → Recorder → Recorder
act (set_headers f) r = record r { header = f r.header }
act (put_status code) r = write_header code r
act (put b) r = (write b r).0

unfoldable pub run_acts : List Act → Recorder → Recorder
unfolding act
run_acts [] r = r
run_acts (a ∷ as_) r = run_acts as_ (act a r)

abbrev pub bytes_of : Act → Bytes
bytes_of (set_headers f) = []
bytes_of (put_status code) = []
bytes_of (put b) = b

unfoldable pub written : List Act → Bytes
written [] = []
written (a ∷ as_) = bytes_of a ++ written as_

-- The recorder of the client's writer `w` after the handler wrote the bytes: it has seen no status
-- and the client has got nothing; or it holds a retryable response back; or it has let a response
-- through that is not retryable, and all its bytes.
pub data Kept (w : ResponseWriter) (bs : Bytes) (r : Recorder) : Type 0 where
  silent :
      r.wrote_header ≡ false
      → r.committed ≡ false
      → r.w ≡ w
      → (r.body ≡ []) × (bs ≡ [])
      → Kept w bs r
  held :
      r.wrote_header ≡ true
      → r.committed ≡ false
      → r.w ≡ w
      → is_retryable (classify_error none r.status_code) ≡ true
      → r.body ≡ bs
      → Kept w bs r
  released :
      (h : Header)
      → r.wrote_header ≡ true
      → r.committed ≡ true
      → is_retryable (classify_error none r.status_code) ≡ false
      → r.w.sent ≡ some (r.status_code, h)
      → r.w.body ≡ w.body ++ bs
      → r.w.broken ≡ false
      → Kept w bs r

-- A recorder that has not committed sends its status, which is not 0, with some headers.
pub commit-Sent :
    (r : Recorder)
    → r.committed ≡ false
    → eqb_ℤ r.status_code (pos 0) ≡ false
    → (h : Header) × (commit r ≡ record r {
      committed = true;
      w = Http.write_header r.status_code (record r.w { header = h });
    })
unfolding commit
commit-Sent r e f =
    if_prove
      (λ z.
        (h : Header) × ((if r.committed then r else record r {
          committed = true;
          status_code = z;
          w = Http.write_header z (record r.w { header = copy_header r.header r.w.header });
        })
          ≡ record r {
            committed = true;
            w = Http.write_header r.status_code (record r.w { header = h });
          }))
      (eqb_ℤ r.status_code (pos 0)) (λ zero_. cc (zero_, f))
      (λ _. (copy_header r.header r.w.header, rw e refl))

-- A response writer that got its status and headers, and nothing else new.
Started : ResponseWriter → ℤ → ResponseWriter → Type 0
Started w code w' =
    (h : Header) × (w'.sent ≡ some (code, h)) × (w'.body ≡ w.body) × (w'.broken ≡ w.broken)

write_header-Started :
    (code : ℤ) (w : ResponseWriter) (h : Header)
    → w.sent ≡ none
    → Started w code (Http.write_header code (record w { header = h }))
unfolding Started Http.write_header
write_header-Started code w h e = rw e (h, refl, refl, refl)

-- What `WriteHeader` sends: the code, or 200 for 0.
abbrev sent_code : ℤ → ℤ
sent_code code = if eqb_ℤ code (pos 0) then pos 200 else code

commit_cases :
    (P : Recorder → Type 0) (r : Recorder)
    → r.committed ≡ false
    → r.w.sent ≡ none
    → ((w' : ResponseWriter)
        → Started r.w (sent_code r.status_code) w'
        → P (record r { committed = true; status_code = sent_code r.status_code; w = w' }))
    → P (commit r)
unfolding commit
commit_cases P r e open_ k =
    if_prove P r.committed (λ f. cc (e, f)) (λ _. k _ (write_header-Started _ r.w _ open_))

final_code :
    (code : ℤ)
    → is_retryable (classify_error none code) ≡ false
    → is_retryable (classify_error none (sent_code code)) ≡ false
unfolding is_retryable classify_error
final_code code h =
    if_prove (λ c. is_retryable (classify_error none c) ≡ false) (eqb_ℤ code (pos 0)) (λ _. refl)
      (λ _. h)

module _ (w : ResponseWriter) (open_ : w.sent ≡ none) (sound : w.broken ≡ false) where
  -- The first status decides: the response is held back or let through.
  write_header-silent :
      (code : ℤ) (r : Recorder)
      → r.wrote_header ≡ false
      → r.committed ≡ false
      → r.w ≡ w
      → r.body ≡ []
      → Kept w [] (write_header code r)
  unfolding write_header Started
  write_header-silent code r e f same empty =
      if_prove (Kept w []) r.wrote_header (λ g. cc (e, g))
        (λ _.
          if_prove (Kept w []) (is_retryable (classify_error none code))
            (λ again. held refl f same again empty)
            (λ final.
              commit_cases (Kept w []) (record r { status_code = code; wrote_header = true }) f
                (ap (λ (z : ResponseWriter). z.sent) same ∙ open_)
                (λ w' (h, at, kept, whole).
                  released h refl refl (final_code code final) at
                    (kept ∙ ap (λ (z : ResponseWriter). z.body) same ∙ sym (append-nil w.body))
                    (whole ∙ ap (λ (z : ResponseWriter). z.broken) same ∙ sound))))

  write_header_later : (code : ℤ) (r : Recorder) → r.wrote_header ≡ true → write_header code r ≡ r
  unfolding write_header
  write_header_later code r e = if_prove (λ z. z ≡ r) r.wrote_header (λ _. refl) (λ g. cc (e, g))

  pub write_header-Kept :
      (code : ℤ) (bs : Bytes) (r : Recorder) → Kept w bs r → Kept w bs (write_header code r)
  write_header-Kept code bs r (silent e f same (empty, none_yet)) =
      rw none_yet (write_header-silent code r e f same empty)
  write_header-Kept code bs r (held e f same again all) =
      rw (write_header_later code r e) (held e f same again all)
  write_header-Kept code bs r (released h e f final at all sound') =
      rw (write_header_later code r e) (released h e f final at all sound')

  -- The bytes of a writer that works.
  http_write :
      (b : Bytes) (v : ResponseWriter) (c : ℤ × Header)
      → v.sent ≡ some c
      → v.broken ≡ false
      → (Http.write b v).0 ≡ record v { body = v.body ++ b }
  unfolding Http.write Http.write_header
  http_write b v c e f = rw (e, f) refl

  write_header_wrote : (code : ℤ) (r : Recorder) → (write_header code r).wrote_header ≡ true
  unfolding write_header commit
  write_header_wrote code r =
      let P : Recorder → Type 0 = λ z. z.wrote_header ≡ true in
      if_prove P r.wrote_header (λ e. e)
        (λ _.
          if_prove P (is_retryable (classify_error none code)) (λ _. refl)
            (λ _. if_prove P r.committed (λ _. refl) (λ _. refl)))

  emit-Kept :
      (b bs : Bytes) (r : Recorder)
      → r.wrote_header ≡ true
      → Kept w bs r
      → Kept w (bs ++ b) (emit b r).0
  unfolding emit
  emit-Kept b bs r e (silent e' f same none_yet) = cc (e, e')
  emit-Kept b bs r e (held e' f same again all) =
      if_prove (λ (z : Recorder × Bool). Kept w (bs ++ b) z.0) r.committed (λ c. cc (c, f))
        (λ _. held e' f same again (ap (λ z. z ++ b) all))
  emit-Kept b bs r e (released h e' f final at all whole) =
      let same = http_write b r.w _ at whole in
      if_prove (λ (z : Recorder × Bool). Kept w (bs ++ b) z.0) r.committed
        (λ _.
          rw same
            (released h e' f final at (ap (λ z. z ++ b) all ∙ append_assoc w.body bs b) whole))
        (λ c. cc (c, f))

  pub write-Kept : (b bs : Bytes) (r : Recorder) → Kept w bs r → Kept w (bs ++ b) (write b r).0
  unfolding write
  write-Kept b bs r k =
      if_prove (λ (z : Recorder). Kept w (bs ++ b) (emit b z).0) r.wrote_header
        (λ e. emit-Kept b bs r e k)
        (λ _.
          emit-Kept b bs _ (write_header_wrote (pos 200) r) (write_header-Kept (pos 200) bs r k))

  emit_ok : (b bs : Bytes) (r : Recorder) → Kept w bs r → (emit b r).1 ≡ true
  unfolding emit Http.write
  emit_ok b bs r (silent e f same none_yet) = rw f refl
  emit_ok b bs r (held e f same again all) = rw f refl
  emit_ok b bs r (released h e f final at all whole) = rw (f, whole) refl

  -- A write to a client that is not broken succeeds.
  pub write_ok : (b bs : Bytes) (r : Recorder) → Kept w bs r → (write b r).1 ≡ true
  unfolding write
  write_ok b bs r k =
      if_prove (λ (z : Recorder). (emit b z).1 ≡ true) r.wrote_header (λ _. emit_ok b bs r k)
        (λ _. emit_ok b bs _ (write_header-Kept (pos 200) bs r k))

  act-Kept :
      (a : Act) (bs : Bytes) (r : Recorder) → Kept w bs r → Kept w (bs ++ bytes_of a) (act a r)
  unfolding act
  act-Kept (set_headers f) bs r (silent e f' same none_yet) =
      rw (append-nil bs) (silent e f' same none_yet)
  act-Kept (set_headers f) bs r (held e f' same again all) =
      rw (append-nil bs) (held e f' same again all)
  act-Kept (set_headers f) bs r (released h e f' final at all whole) =
      rw (append-nil bs) (released h e f' final at all whole)
  act-Kept (put_status code) bs r k = rw (append-nil bs) (write_header-Kept code bs r k)
  act-Kept (put b) bs r k = write-Kept b bs r k

  run_acts-Kept :
      (as_ : List Act) (bs : Bytes) (r : Recorder)
      → Kept w bs r
      → Kept w (bs ++ written as_) (run_acts as_ r)
  unfolding run_acts written
  run_acts-Kept [] bs r k = rw (append-nil bs) k
  run_acts-Kept (a ∷ as_) bs r k =
      rw (← append_assoc bs (bytes_of a) (written as_))
        (run_acts-Kept as_ (bs ++ bytes_of a) (act a r) (act-Kept a bs r k))

  -- Whatever a handler does to the recorder of a client's writer that has sent nothing and is not
  -- broken: as long as it has written no status the client gets nothing; if the first status is
  -- retryable the client gets nothing and the buffer holds all bytes in order; if it is not, the
  -- client has got it, once, and all bytes in order, after those that it had.
  pub run_acts_correct : (as_ : List Act) → Kept w (written as_) (run_acts as_ (new_recorder w))
  unfolding new_recorder
  run_acts_correct as_ = run_acts-Kept as_ [] (new_recorder w) (silent refl refl refl (refl, refl))
