-- ===== src/MemoryQueue/Delivery.antt =====
-- What a subscriber gets of the messages of a topic.
use llmproxy.Common.{
  ℕ, zero, suc, ◌≡◌, List, [], ◌∷◌, ◌++◌, append_assoc, Option, none, some, length, ltb, if_prove,
}
use llmproxy.Common.Returns.{Allows}
use llmproxy.Common.Eq.{Bytes, string_instance}
use llmproxy.MemoryQueue.{
  Subscriber, Dispatcher, waiting, holding, sending, returned, Topic, new_subscriber, offer,
  offer_at, put_first, put_later, serve_at, close_subscribers,
}

-- The entries of the first list stand in the second, in order.
pub data Within : List Bytes → List Bytes → Type 0 where
  nothing : {ys : List Bytes} → Within [] ys
  skip : {xs ys : List Bytes} (y : Bytes) → Within xs ys → Within xs (y ∷ ys)
  keep : {xs ys : List Bytes} (x : Bytes) → Within xs ys → Within (x ∷ xs) (x ∷ ys)

pub Within-append : {xs ys : List Bytes} (zs : List Bytes) → Within xs ys → Within xs (ys ++ zs)
Within-append zs nothing = nothing
Within-append zs (skip y w) = skip y (Within-append zs w)
Within-append zs (keep x w) = keep x (Within-append zs w)

Within-last : {xs ys : List Bytes} (z : Bytes) → Within xs ys → Within (xs ++ z ∷ []) (ys ++ z ∷ [])
Within-last {ys} z nothing = last ys
  where
    last : (ys : List Bytes) → Within (z ∷ []) (ys ++ z ∷ [])
    last [] = keep z nothing
    last (y ∷ ys) = skip y (last ys)
Within-last z (skip y w) = skip y (Within-last z w)
Within-last z (keep x w) = keep x (Within-last z w)

put_first-Allows :
    (P : List Subscriber → Type 0) (Q : Subscriber → Type 0) (o : Option Subscriber)
    (ss : List Subscriber)
    → Allows Q o
    → ((s : Subscriber) → Q s → P (s ∷ ss))
    → Allows P (put_first o ss)
put_first-Allows P Q none ss h k = tt
put_first-Allows P Q (some s) ss h k = k s h

put_later-Allows :
    (P Q : List Subscriber → Type 0) (s : Subscriber) (o : Option (List Subscriber))
    → Allows Q o
    → ((ss : List Subscriber) → Q ss → P (s ∷ ss))
    → Allows P (put_later s o)
put_later-Allows P Q s none h k = tt
put_later-Allows P Q s (some ss) h k = k ss h

-- What a subscriber has got: what it was called with, and what waits for it.
abbrev pub got : Subscriber → List Bytes
got s = s.handled ++ s.buffer

-- The first `i` subscribers may have got the message, the others not yet.
unfoldable pub Fits : List Bytes → Bytes → ℕ → List Subscriber → Type 0
Fits before msg i [] = Unit
Fits before msg zero (s ∷ ss) = Within (got s) before × Fits before msg zero ss
Fits before msg (suc i) (s ∷ ss) = Within (got s) (before ++ msg ∷ []) × Fits before msg i ss

-- The messages that were dispatched, the one that is on its way, and those in the channel.
abbrev pub Split : Dispatcher → List Bytes → List Bytes → List Bytes → List Subscriber → Type 0
Split waiting before buffer taken ss = (taken ≡ before ++ buffer) × Fits before [] 0 ss
Split returned before buffer taken ss = (taken ≡ before ++ buffer) × Fits before [] 0 ss
Split (holding msg) before buffer taken ss = (taken ≡ before ++ msg ∷ buffer) × Fits before msg 0 ss
Split (sending msg i n) before buffer taken ss =
    (taken ≡ before ++ msg ∷ buffer) × Fits before msg i ss

pub record IsOrdered (t : Topic) : Type 0 where
  pub before : List Bytes
  pub split : Split t.dispatcher before t.buffer t.taken t.subscribers

module _ (before : List Bytes) (msg : Bytes) where
  pub Fits-later :
      (other : Bytes) (ss : List Subscriber) → Fits before msg 0 ss → Fits before other 0 ss
  unfolding Fits
  Fits-later other [] f = tt
  Fits-later other (s ∷ ss) f = (f.0, Fits-later other ss f.1)

  pub Fits-sent :
      (other : Bytes) (i : ℕ) (ss : List Subscriber)
      → Fits before msg i ss
      → Fits (before ++ msg ∷ []) other 0 ss
  unfolding Fits
  Fits-sent other i [] f = tt
  Fits-sent other zero (s ∷ ss) f = (Within-append (msg ∷ []) f.0, Fits-sent other zero ss f.1)
  Fits-sent other (suc i) (s ∷ ss) f = (f.0, Fits-sent other i ss f.1)

  pub Fits-added :
      (i : ℕ) (ss : List Subscriber)
      → Fits before msg i ss
      → Fits before msg i (ss ++ new_subscriber ∷ [])
  unfolding Fits
  Fits-added zero [] f = (nothing, tt)
  Fits-added (suc i) [] f = (nothing, tt)
  Fits-added zero (s ∷ ss) f = (f.0, Fits-added zero ss f.1)
  Fits-added (suc i) (s ∷ ss) f = (f.0, Fits-added i ss f.1)

  pub Fits-closed :
      (i : ℕ) (ss : List Subscriber)
      → Fits before msg i ss
      → Fits before msg i (close_subscribers ss)
  unfolding Fits close_subscribers
  Fits-closed i [] f = tt
  Fits-closed zero (s ∷ ss) f = (f.0, Fits-closed zero ss f.1)
  Fits-closed (suc i) (s ∷ ss) f = (f.0, Fits-closed i ss f.1)

  -- A goroutine that serves a subscriber does not change what it has got.
  pub Fits-served :
      (serve : Subscriber → Option Subscriber)
      → ((s : Subscriber) → Allows (λ s'. got s' ≡ got s) (serve s))
      → (i j : ℕ) (ss : List Subscriber) → Fits before msg i ss
      → Allows (Fits before msg i) (serve_at serve j ss)
  unfolding Fits serve_at
  Fits-served serve same i j [] f = tt
  Fits-served serve same zero zero (s ∷ ss) f =
      put_first-Allows (Fits before msg zero) (λ s'. got s' ≡ got s) (serve s) ss (same s)
        (λ s' e. (rw e f.0, f.1))
  Fits-served serve same (suc i) zero (s ∷ ss) f =
      put_first-Allows (Fits before msg (suc i)) (λ s'. got s' ≡ got s) (serve s) ss (same s)
        (λ s' e. (rw e f.0, f.1))
  Fits-served serve same zero (suc j) (s ∷ ss) f =
      put_later-Allows (Fits before msg zero) (Fits before msg zero) s (serve_at serve j ss)
        (Fits-served serve same zero j ss f.1) (λ ss' g. (f.0, g))
  Fits-served serve same (suc i) (suc j) (s ∷ ss) f =
      put_later-Allows (Fits before msg (suc i)) (Fits before msg i) s (serve_at serve j ss)
        (Fits-served serve same i j ss f.1) (λ ss' g. (f.0, g))

  -- The send to the next subscriber: it gets the message or not.
  pub Fits-offered :
      (capacity i : ℕ) (ss : List Subscriber)
      → Fits before msg i ss
      → Allows (Fits before msg (suc i)) (offer_at capacity msg i ss)
  unfolding Fits offer_at offer
  Fits-offered capacity i [] f = tt
  Fits-offered capacity zero (s ∷ ss) f =
      put_first-Allows (Fits before msg (suc zero)) (λ s'. Within (got s') (before ++ msg ∷ []))
        (offer capacity msg s) ss
        (if_prove (Allows (λ s'. Within (got s') (before ++ msg ∷ []))) s.closed (λ _. tt)
          (λ _.
            if_prove (λ s'. Within (got s') (before ++ msg ∷ [])) (ltb (length s.buffer) capacity)
              (λ _. rw (← append_assoc s.handled s.buffer (msg ∷ [])) (Within-last msg f.0))
              (λ _. Within-append (msg ∷ []) f.0)))
        (λ s' w. (w, f.1))
  Fits-offered capacity (suc i) (s ∷ ss) f =
      put_later-Allows (Fits before msg (suc (suc i))) (Fits before msg (suc i)) s
        (offer_at capacity msg i ss) (Fits-offered capacity i ss f.1) (λ ss' g. (f.0, g))
