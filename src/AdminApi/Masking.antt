-- ===== src/AdminApi/Masking.antt =====
-- The list of keys tells no more of a key than its mask, and a filter has numbers in range.
use Prim.Native.String.{String}
use text.Mathlib.Text.{◌==◌ as str_eq}
use llmproxy.Common.{
  ℕ, zero, suc, ◌*◌, ◌-◌, ◌<◌, ◌≤◌, ◌≡◌, ◌⊎◌, inl, inr, refl, ap, sym, ◌∙◌, List, [], ◌∷◌, ◌++◌,
  Option, arith, length, take, drop, ltb, if_prove, Option-cases,
}
use llmproxy.Common.Int.{ℤ, pos, negsuc, ◌-ℤ◌, ◌+ℤ◌, ◌≤ℤ◌, ltb_ℤ}
use llmproxy.Common.Eq.{Bytes, codes}
use llmproxy.Common.Decimal.{atoi, format_int}
use llmproxy.Domain.{ApiKey, ok, LogFilter}
use llmproxy.Http.{ResponseWriter}
use llmproxy.SqlLogger.Queries.{at_least_one, log_columns, wrap_int64, page_text, page_query}
use llmproxy.AdminApi.{
  AdminRequest, AdminStore, LogReader, Encoders, mask, masked, int_query, parse_log_filter, keys,
}

-- Two secrets that the mask does not tell apart: both are short, or both are long and agree in
-- their first three and in their last four bytes.
abbrev pub LooksLike : Bytes → Bytes → Type 0
LooksLike a b =
    ((length a ≤ 7) × (length b ≤ 7))
    ⊎ ((7 < length a)
        × (7 < length b)
        × (take 3 a ≡ take 3 b)
        × (drop (length a - 4) a ≡ drop (length b - 4) b))

-- The same keys, but for secrets that look like the others.
pub data AreAlike : List ApiKey → List ApiKey → Type 0 where
  none_left : AreAlike [] []
  one_more :
      {ks ks' : List ApiKey} (k : ApiKey) (secret : String)
      → LooksLike (codes k.key) (codes secret)
      → AreAlike ks ks'
      → AreAlike (k ∷ ks) (record k { key = secret } ∷ ks')

mask-short : (a : Bytes) → length a ≤ 7 → mask a ≡ codes "****"
unfolding mask
mask-short a h =
    if_prove (λ z. z ≡ codes "****") (ltb 7 (length a)) (λ e. absurd (ground (arith, h, e)))
      (λ _. refl)

mask-long : (a : Bytes) → 7 < length a → mask a ≡ take 3 a ++ codes "***" ++ drop (length a - 4) a
unfolding mask
mask-long a h =
    if_prove (λ z. z ≡ take 3 a ++ codes "***" ++ drop (length a - 4) a) (ltb 7 (length a))
      (λ _. refl) (λ e. absurd (ground (arith, h, e)))

mask-LooksLike : (a b : Bytes) → LooksLike a b → mask a ≡ mask b
mask-LooksLike a b (inl (h, h')) = mask-short a h ∙ sym (mask-short b h')
mask-LooksLike a b (inr (h, h', front, back)) =
    mask-long a h ∙ rw (front, back) (sym (mask-long b h'))

masked-AreAlike : {ks ks' : List ApiKey} → AreAlike ks ks' → masked ks ≡ masked ks'
unfolding masked
masked-AreAlike none_left = refl
masked-AreAlike (one_more k secret l rest) =
    rw (mask-LooksLike (codes k.key) (codes secret) l, masked-AreAlike rest) refl

-- The answer with the list of keys is the same for keys that differ only in secrets which the mask
-- does not tell apart: short ones, or long ones with the same first three and last four bytes.
pub keys-AreAlike :
    (enc : Encoders) (store : AdminStore) (reader : LogReader) (parse_time : String → Option ℕ)
    (r : AdminRequest) (w : ResponseWriter) (ks ks' : List ApiKey)
    → AreAlike ks ks'
    → keys enc (record store { list_api_keys = ok ks }) reader parse_time r w
      ≡ keys enc (record store { list_api_keys = ok ks' }) reader parse_time r w
unfolding keys
keys-AreAlike enc store reader parse_time r w ks ks' h = rw (masked-AreAlike h, keys) refl

int_query_bounds :
    (s : String) (least default : ℤ)
    → least ≤ℤ pos 1
    → least ≤ℤ default
    → least ≤ℤ int_query s default
unfolding int_query
int_query_bounds s least default low h =
    if_prove (λ z. least ≤ℤ z) (str_eq s "") (λ _. h)
      (λ _. elim (Option-cases (atoi (codes s))) [
        | inl e ↦ rw e h
        | inr (v, e) ↦
            rw e
              (if_prove (λ z. least ≤ℤ z) (ltb_ℤ v (pos 1)) (λ _. h) (λ f. ground (arith, f, low)))
      ])

-- What a client may ask of the log: the numbers are in range, and the query of the page skips the
-- rows of the pages before it, as many as the product says that wraps at 64 bits.
pub record IsInRange (f : LogFilter) : Type 0 where
  pub some_status : pos 0 ≤ℤ f.status_code
  pub before : ℕ
  pub size : ℕ
  pub this_page : f.page ≡ pos (suc before)
  pub this_size : f.page_size ≡ pos (suc size)
  pub queried :
      (where_ : Bytes)
      → page_query where_ f
        ≡ log_columns
          ++ where_
          ++ (codes " ORDER BY timestamp DESC LIMIT "
              ++ format_int (pos (suc size))
              ++ codes " OFFSET "
              ++ format_int (wrap_int64 (before * suc size)))

positive_is : (n : ℤ) → pos 1 ≤ℤ n → (m : ℕ) × (n ≡ pos (suc m))
positive_is (pos (suc m)) h = (m, refl)
positive_is (pos zero) h = absurd (omega (arith, h))
positive_is (negsuc m) h = absurd (omega (arith, h))

pred_pos : (n : ℕ) → pos (suc n) -ℤ pos 1 ≡ pos n
unfolding ◌-ℤ◌ ◌+ℤ◌
pred_pos n = ground arith

page_text-window :
    (before size : ℕ)
    → page_text (pos (suc before)) (pos (suc size))
      ≡ codes " ORDER BY timestamp DESC LIMIT "
        ++ format_int (pos (suc size))
        ++ codes " OFFSET "
        ++ format_int (wrap_int64 (before * suc size))
unfolding page_text
page_text-window before size = rw (pred_pos before) refl

at_least_one-suc : (n : ℕ) (default : ℤ) → at_least_one (pos (suc n)) default ≡ pos (suc n)
at_least_one-suc n default =
    if_prove (λ z. z ≡ pos (suc n)) (ltb_ℤ (pos (suc n)) (pos 1)) (λ e. absurd (ground (arith, e)))
      (λ _. refl)

page_query-window :
    (where_ : Bytes) (f : LogFilter) (before size : ℕ)
    → f.page ≡ pos (suc before)
    → f.page_size ≡ pos (suc size)
    → page_query where_ f
      ≡ log_columns
        ++ where_
        ++ (codes " ORDER BY timestamp DESC LIMIT "
            ++ format_int (pos (suc size))
            ++ codes " OFFSET "
            ++ format_int (wrap_int64 (before * suc size)))
unfolding page_query
page_query-window where_ f before size at many =
    let first : at_least_one f.page (pos 1) ≡ pos (suc before) =
      ap (λ z. at_least_one z (pos 1)) at ∙ at_least_one-suc before (pos 1) in
    let rows : at_least_one f.page_size (pos 20) ≡ pos (suc size) =
      ap (λ z. at_least_one z (pos 20)) many ∙ at_least_one-suc size (pos 20) in
    let text =
      ap (λ z. page_text z (at_least_one f.page_size (pos 20))) first
      ∙ ap (page_text (pos (suc before))) rows
      ∙ page_text-window before size in
    ap (λ z. log_columns ++ where_ ++ z) text

-- Whatever the client writes, the page and its size are at least 1, the status is not negative, and
-- the query of the page asks for as many rows as its size says, after those of the pages before it,
-- whose number wraps at 64 bits.
pub parse_log_filter-IsInRange :
    (parse_time : String → Option ℕ) (r : AdminRequest) → IsInRange (parse_log_filter parse_time r)
unfolding parse_log_filter
parse_log_filter-IsInRange parse_time r =
    let page = int_query_bounds (r.query "page") (pos 1) (pos 1) (omega arith) (omega arith) in
    let size =
      int_query_bounds (r.query "page_size") (pos 1) (pos 20) (omega arith) (omega arith) in
    let (before, at) = positive_is _ page in
    let (rows, many) = positive_is _ size in
    record {
      some_status =
          int_query_bounds (r.query "status_code") (pos 0) (pos 0) (omega arith) (omega arith);
      before = before;
      size = rows;
      this_page = at;
      this_size = many;
      queried = λ where_. page_query-window where_ _ before rows at many;
    }
