-- ===== src/EventApi/Listing/Laws.antt =====
-- The pages of a list are one list in parts, although each is a query of its own.
use mathlib.Core.Path.{subst, ap₂}
use event_pipeline_extension.Prelude.{
  ℕ, zero, suc, ◌+◌, ◌*◌, ◌≤◌, ◌<◌, String, ◌≡◌, ◌↔◌, refl, ap, sym, ◌∙◌, inl, inr, Bool, true,
  false, List, [], ◌∷◌, ◌++◌, keep, take, drop, take_add, take_all, length, length-take_le, All,
  IsIn, All-IsIn, arith,
}
use event_pipeline_extension.Prelude.Result.{Result, ok, raise, ◌>>=◌}
use event_pipeline_extension.Json.{ℤ, pos}
use event_pipeline_extension.EventApi.{Event, ApiException}
use event_pipeline_extension.EventApi.Events.{Mapper, EventResponse, to_response}
use event_pipeline_extension.EventApi.Listing.{
  page_rows, page_limit, all_responses, Query, selects, before, IsSorted, Database, IsOrdering,
  smaller, is_after, content, find_all,
}

module _ (id_before : String → String → Bool)
    (asymmetric : (a b : String) → id_before a b ≡ true → id_before b a ≡ false) where
  before_asym : (a b : Event) → before id_before a b ≡ true → before id_before b a ≡ false
  before_asym a b h = ground (arith, asymmetric a.id b.id)

  heads_same :
      (x y : Event) (xs ys : List Event)
      → All (λ e. before id_before x e ≡ true) xs
      → All (λ e. before id_before y e ≡ true) ys
      → IsIn x (y ∷ ys)
      → IsIn y (x ∷ xs)
      → x ≡ y
  heads_same x y xs ys hx hy (inl e) iy = e
  heads_same x y xs ys hx hy (inr ix) (inl e) = sym e
  heads_same x y xs ys hx hy (inr ix) (inr iy) =
      let forward = All-IsIn (λ e. before id_before x e ≡ true) y xs hx iy in
      let back = All-IsIn (λ e. before id_before y e ≡ true) x ys hy ix in
      cc (before_asym x y forward)

  tail-IsIn :
      (x y e : Event) (xs ys : List Event)
      → x ≡ y
      → All (λ later. before id_before x later ≡ true) xs
      → IsIn e xs
      → IsIn e (y ∷ ys)
      → IsIn e ys
  tail-IsIn x y e xs ys same hx i (inr j) = j
  tail-IsIn x y e xs ys same hx i (inl is_head) =
      let later = All-IsIn (λ e'. before id_before x e' ≡ true) e xs hx i in
      let itself : before id_before x x ≡ true =
        subst (λ v. before id_before x v ≡ true) (is_head ∙ sym same) later in
      cc (before_asym x x itself)

  -- Two sorted lists with the same events are one list.
  IsSorted-unique :
      (xs ys : List Event)
      → IsSorted id_before xs
      → IsSorted id_before ys
      → ((e : Event) → IsIn e xs ↔ IsIn e ys)
      → xs ≡ ys
  IsSorted-unique [] [] sx sy same = refl
  IsSorted-unique [] (y ∷ ys) sx sy same = absurd ((same y).1 (inl refl) tt)
  IsSorted-unique (x ∷ xs) [] sx sy same = absurd ((same x).0 (inl refl) tt)
  IsSorted-unique (x ∷ xs) (y ∷ ys) sx sy same =
      let head : x ≡ y =
        heads_same x y xs ys sx.0 sy.0 ((same x).0 (inl refl)) ((same y).1 (inl refl)) in
      let tail : xs ≡ ys = IsSorted-unique xs ys sx.1 sy.1 (λ e. (
        λ i. tail-IsIn x y e xs ys head sx.0 i ((same e).0 (inr i)),
        λ i. tail-IsIn y x e ys xs (sym head) sy.0 i ((same e).1 (inr i)),
      )) in
      ap₂ (λ a l. a ∷ l) head tail

-- The responses of two lists of events, one after the other.
module _ (mapper : Mapper) where
  all_responses-append :
      (xs ys : List Event)
      → all_responses mapper (xs ++ ys)
        ≡ (do front ← all_responses mapper xs; back ← all_responses mapper ys; ok (front ++ back))
  all_responses-append [] ys = back (all_responses mapper ys)
    where
      back : (r : Result ApiException (List EventResponse)) → r ≡ (r >>= (λ l. ok ([] ++ l)))
      back (ok l) = refl
      back (raise ex) = refl
  all_responses-append (x ∷ xs) ys =
      first (to_response mapper x) (all_responses mapper xs) (all_responses mapper ys)
        (all_responses mapper (xs ++ ys)) (all_responses-append xs ys)
    where
      first :
          (r : Result ApiException EventResponse)
          (front back both : Result ApiException (List EventResponse))
          → both ≡ (front >>= (λ f. back >>= (λ b. ok (f ++ b))))
          → (r >>= (λ a. both >>= (λ l. ok (a ∷ l))))
            ≡ ((r >>= (λ a. front >>= (λ l. ok (a ∷ l)))) >>= (λ f. back >>= (λ b. ok (f ++ b))))
      first (raise ex) front back both e = refl
      first (ok a) (raise ex) back both e = rw e refl
      first (ok a) (ok f) (raise ex) both e = rw e refl
      first (ok a) (ok f) (ok b) both e = rw e refl

module _ (db : Database) (mapper : Mapper) (max_page_size : ℤ) (rows : List Event) where
  -- The query for a page of a size.
  abbrev pub asked : Query → ℕ → ℕ → Query
  asked q page size = record q { page = pos page; size = pos size }

  -- The first pages of a query, each by a request of its own, until one raises.
  unfoldable pub pages : (ℕ → ℕ) → Query → ℕ → ℕ → Result ApiException (List EventResponse)
  pages number q size zero = ok []
  pages number q size (suc k) = do
    front ← pages number q size k
    page ← find_all db mapper max_page_size (number k) (asked q k size) rows
    ok (front ++ page)

  -- The list that the pages are parts of.
  abbrev pub listing : Query → List Event
  listing q = db.sort 0 (keep (selects db.blank q) rows)

  smaller_le : (a b : ℕ) → smaller a b ≤ b
  smaller_le a b = ground arith

  bounded :
      (number : ℕ) (q : Query) (page size : ℕ)
      → length (page_rows db mapper max_page_size number q page size rows)
        ≤ page_limit max_page_size
  bounded number q page size =
      let n = smaller size (page_limit max_page_size) in
      omega (
        arith,
        smaller_le size (page_limit max_page_size),
        length-take_le n (drop (page * n) (db.sort number (keep (selects db.blank q) rows))),
      )

  -- A request whose page is not negative, whose size is positive, and whose range is not reversed gives
  -- the content of the page, which has at most the largest size.
  pub find_all-content :
      (number : ℕ) (q : Query) (page size : ℕ)
      → q.page ≡ pos page
      → q.size ≡ pos size
      → 0 < size
      → is_after q.since q.until ≡ false
      → (find_all db mapper max_page_size number q rows
          ≡ content db mapper max_page_size number q page size rows)
        × (length (page_rows db mapper max_page_size number q page size rows)
            ≤ page_limit max_page_size)
  unfolding find_all
  find_all-content number q page zero at s positive range = absurd (omega arith)
  find_all-content number q page (suc n) at s positive range =
      (rw (at, s, range) refl, bounded number q page (suc n))

  module _ (ordering : IsOrdering db rows) where
    -- All queries see one list.
    sort_same :
        (p : Event → Bool) (first second : ℕ)
        → db.sort first (keep p rows) ≡ db.sort second (keep p rows)
    sort_same p first second =
        IsSorted-unique db.id_before ordering.asymmetric (db.sort first (keep p rows))
          (db.sort second (keep p rows)) (ordering.sorted first p) (ordering.sorted second p)
          (λ e. (
            λ i. (ordering.same second p e).1 ((ordering.same first p e).0 i),
            λ i. (ordering.same first p e).1 ((ordering.same second p e).0 i),
          ))

    -- Paging is stable: if the database orders as it says, the size is positive and the range not
    -- reversed, the first `k` pages of a query, each from a request of its own, are the responses of
    -- the first `k * n` events of one list, where `n` is the smaller of the size asked for and the
    -- largest one allowed, or the exception of the first of them whose payload is not JSON.
    pub pages-take :
        (number : ℕ → ℕ) (q : Query) (size k : ℕ)
        → 0 < size
        → is_after q.since q.until ≡ false
        → pages number q size k
          ≡ all_responses mapper (take (k * smaller size (page_limit max_page_size)) (listing q))
    unfolding pages
    pages-take number q size zero positive range =
        let nothing : 0 * smaller size (page_limit max_page_size) ≡ 0 = omega arith in
        rw nothing refl
    pages-take number q size (suc k) positive range =
        let n = smaller size (page_limit max_page_size) in
        let more : suc k * n ≡ k * n + n = grind arith in
        let page =
          (find_all-content (number k) (asked q k size) k size refl refl positive range).0 in
        rw
          (
            pages-take number q size k positive range,
            page,
            sort_same (selects db.blank q) (number k) 0,
          )
          (sym (
              all_responses-append mapper (take (k * n) (listing q))
                (take n (drop (k * n) (listing q))))
            ∙ ap (all_responses mapper) (sym (take_add (k * n) n (suc k * n) (listing q) more)))

    -- Paging is complete: if the database orders as it says, the size is positive and the range not
    -- reversed, enough pages, each from a request of its own, are together the responses of one sorted
    -- list, in which exactly the selected events are, or the exception of the first of these events
    -- whose payload is not JSON.
    pub pages_all :
        (number : ℕ → ℕ) (q : Query) (size k : ℕ)
        → 0 < size
        → is_after q.since q.until ≡ false
        → length (listing q) ≤ k * smaller size (page_limit max_page_size)
        → (pages number q size k ≡ all_responses mapper (listing q))
          × IsSorted db.id_before (listing q)
          × ((e : Event) → IsIn e (listing q) ↔ IsIn e (keep (selects db.blank q) rows))
    pages_all number q size k positive range enough = (
      pages-take number q size k positive range
          ∙ ap (all_responses mapper)
              (take_all (k * smaller size (page_limit max_page_size)) (listing q) enough),
      ordering.sorted 0 (selects db.blank q),
      λ e. ordering.same 0 (selects db.blank q) e,
    )
