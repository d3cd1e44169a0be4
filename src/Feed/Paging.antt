-- ===== src/Feed/Paging.antt =====
-- `pageBounds` and `paginate` of backend/feed-service/internal/feed/service.go together: a client that
-- follows the page tokens.
use capibarco.Base.{
  ℕ, zero, suc, ◌+◌, ◌≤◌, ◌<◌, ◌≡◌, refl, ◌∙◌, ap, sym, false, Option, none, some, List, [], ◌∷◌,
  ◌++◌, arith, ltb, ltb→lt, if◌then◌else◌, length, take, drop, is_empty, Bool-cases, inl, inr,
  take-append-drop, drop-drop,
}
use capibarco.Base.Int.{ℤ, pos, negsuc}
use capibarco.Base.Text.{Text}
use capibarco.Base.Result.{Result, ok, err, ◌>>=◌}
use capibarco.Feed.Types.{Candidate}
use capibarco.Feed.Serving.{Codec, FeedError, page_bounds, page_size_of, paginate}

-- One request for a page of a fixed feed.
abbrev pub get_page : Codec → List Candidate → ℤ → Text → Result FeedError (List Candidate × Text)
get_page codec feed size token =
    page_bounds codec size token >>= λ bounds. ok (paginate codec feed bounds.1 bounds.0)

abbrev joined : List Candidate → Option (List Candidate) → Option (List Candidate)
joined window none = none
joined window (some rest) = some (window ++ rest)

abbrev followed :
    (Text → Option (List Candidate))
    → Result FeedError (List Candidate × Text)
    → Option (List Candidate)
followed next (err e) = none
followed next (ok (window, token)) =
    if is_empty token then some window else joined window (next token)

-- A client that asks for the page behind a token and goes on until there is no further token; `none`
-- where a request fails or the fuel runs out.
unfoldable pub walk : ℕ → Codec → List Candidate → ℤ → Text → Option (List Candidate)
walk zero codec feed size token = none
walk (suc f) codec feed size token =
    let rest = walk f codec feed size in followed rest (get_page codec feed size token)

page_size_of-pos : (size : ℤ) → 1 ≤ page_size_of size
unfolding page_size_of
page_size_of-pos (negsuc n) = omega arith
page_size_of-pos (pos n) = ground arith

drop-all : (n : ℕ) (xs : List Candidate) → length xs ≤ n → drop n xs ≡ []
drop-all zero [] h = refl
drop-all zero (x ∷ xs) h = absurd (omega arith)
drop-all (suc n) [] h = refl
drop-all (suc n) (x ∷ xs) h = drop-all n xs (omega arith)

module _ (codec : Codec) (feed : List Candidate) (size : ℤ) where
  paginate-past :
      (offset n : ℕ) → length feed ≤ offset → paginate codec feed offset n ≡ (drop offset feed, [])
  unfolding paginate
  paginate-past offset n h = ground (arith, drop-all offset feed)

  paginate-last :
      (offset n : ℕ)
      → length feed ≤ offset + n
      → paginate codec feed offset n ≡ (drop offset feed, [])
  unfolding paginate
  paginate-last offset n h = ground (arith, drop-all offset feed)

  paginate-more :
      (offset n : ℕ)
      → offset + n < length feed
      → paginate codec feed offset n ≡ (take n (drop offset feed), codec.encode (offset + n))
  unfolding paginate
  paginate-more offset n h = ground arith

  page_bounds-encode :
      (n : ℕ)
      → codec.decode (codec.encode n) ≡ some (pos n)
      → is_empty (codec.encode n) ≡ false
      → page_bounds codec size (codec.encode n) ≡ ok (page_size_of size, n)
  unfolding page_bounds
  page_bounds-encode n d e = rw (e, d) refl

  walk-from :
      (f offset : ℕ) (token : Text)
      → ((n : ℕ) → codec.decode (codec.encode n) ≡ some (pos n))
      → ((n : ℕ) → is_empty (codec.encode n) ≡ false)
      → page_bounds codec size token ≡ ok (page_size_of size, offset)
      → offset ≤ length feed
      → length feed < offset + f
      → walk f codec feed size token ≡ some (drop offset feed)
  unfolding walk
  walk-from zero offset token d e b o h = absurd (omega arith)
  walk-from (suc f) offset token d e b o h =
      let n = page_size_of size in
      elim (Bool-cases (ltb (offset + n) (length feed))) [
        | inl l ↦
            let more = paginate-more offset n (ltb→lt _ _ l) in
            let IH =
              walk-from f (offset + n) (codec.encode (offset + n)) d e
                (page_bounds-encode (offset + n) (d _) (e _)) (omega (arith, ltb→lt _ _ l))
                (omega (arith, page_size_of-pos size)) in
            rw (b, more, e (offset + n), IH)
              (ap some (
                ap (λ xs. take n (drop offset feed) ++ xs) (sym (drop-drop n offset feed))
                ∙ take-append-drop n (drop offset feed)))
        | inr l ↦ rw (b, paginate-last offset n (ground arith)) refl
      ]

-- For a codec that decodes what it encodes and never encodes to the empty token: a client that starts
-- without a token and follows the tokens gets the whole feed, each candidate once and in order,
-- for every page size asked for, within one request more than there are candidates.
pub walk_lem :
    (codec : Codec) (feed : List Candidate) (size : ℤ)
    → ((n : ℕ) → codec.decode (codec.encode n) ≡ some (pos n))
    → ((n : ℕ) → is_empty (codec.encode n) ≡ false)
    → walk (suc (length feed)) codec feed size [] ≡ some feed
unfolding page_bounds
walk_lem codec feed size d e =
    walk-from codec feed size (suc (length feed)) 0 [] d e refl (omega arith) (omega arith)
