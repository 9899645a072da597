-- ===== src/Admin/Pages.antt =====
-- The pages of a list hold its rows, each once and in order.
use payment_microservice.Prelude.{
  ℕ, zero, suc, ◌+◌, ◌*◌, ◌/◌, ◌≤◌, Bool, some, List, [], ◌∷◌, ◌++◌, length, find_many, count_where,
  take, drop, ◌≡◌, refl, ◌∙◌, ap, arith,
}
use payment_microservice.Store.{Outcome, ok, err}
use payment_microservice.Admin.{Page, page_count, paginate}
use native.Mathlib.Omega.{div_any}
use native.Mathlib.Numerals.{unary_clauses}

-- the rows of a page, none where the database refuses
abbrev pub rows_of : {A : Type 0} → Outcome (Page A) → List A
rows_of (ok page) = page.rows
rows_of (err e) = []

-- the first pages, one after another
unfoldable pub first_pages : {A : Type 0} → (A → Bool) → List A → ℕ → ℕ → List A
first_pages matches rows zero limit = []
first_pages matches rows (suc n) limit =
    first_pages matches rows n limit ++ rows_of (paginate matches rows (suc n) limit)

pages_enough : (total l : ℕ) → total ≤ (total + l) / suc l * suc l
pages_enough total l = omega (arith, div_any (total + l) (suc l))

module _ {A : Type 0} where
  length-find_many : (p : A → Bool) (xs : List A) → length (find_many p xs) ≡ count_where p xs
  unfolding find_many count_where
  length-find_many p [] = refl
  length-find_many p (x ∷ xs) = ground (arith, length-find_many p xs)

  length-take : (n : ℕ) (xs : List A) → length (take n xs) ≤ n
  length-take zero xs = omega arith
  length-take (suc n) [] = omega arith
  length-take (suc n) (x ∷ xs) = omega (arith, length-take n xs)

  take-all : (n : ℕ) (xs : List A) → length xs ≤ n → take n xs ≡ xs
  take-all zero [] h = refl
  take-all zero (x ∷ xs) h = ground arith
  take-all (suc n) [] h = refl
  take-all (suc n) (x ∷ xs) h = ap (λ ys. x ∷ ys) (take-all n xs (omega arith))

  take-nil : (n : ℕ) → take {A = A} n [] ≡ []
  take-nil zero = refl
  take-nil (suc n) = refl

  take-add : (m n : ℕ) (xs : List A) → take (m + n) xs ≡ take m xs ++ take n (drop m xs)
  take-add zero n xs = let same : 0 + n ≡ n = omega arith in rw same refl
  take-add (suc m) n [] = simp (unary_clauses, take-nil) refl
  take-add (suc m) n (x ∷ xs) =
      let same : suc m + n ≡ suc (m + n) = omega arith in
      rw same (ap (λ ys. x ∷ ys) (take-add m n xs))

  first_pages-take :
      (p : A → Bool) (xs : List A) (n limit : ℕ)
      → first_pages p xs n limit ≡ take (n * limit) (find_many p xs)
  unfolding first_pages paginate
  first_pages-take p xs zero limit = let same : 0 * limit ≡ 0 = omega arith in rw same refl
  first_pages-take p xs (suc n) limit =
      let rows = find_many p xs in
      let both : suc n * limit ≡ n * limit + limit = omega arith in
      rw (both, take-add (n * limit) limit rows)
        (ap (λ ys. ys ++ take limit (drop (n * limit) rows)) (first_pages-take p xs n limit))

  rows_le :
      (p : A → Bool) (xs : List A) (limit page : ℕ)
      → length (rows_of (paginate p xs page limit)) ≤ limit
  unfolding paginate
  rows_le p xs limit zero = omega arith
  rows_le p xs limit (suc before) = length-take limit _

  -- For a limit that is not 0, a list has a number of pages, each page holds at most `limit` rows,
  -- and the pages up to that number, one after another, are all the rows that match, in their order.
  pub first_pages-paginate :
      (p : A → Bool) (xs : List A) (l : ℕ)
      → (pages : ℕ) × (page_count (count_where p xs) (suc l) ≡ some pages)
        × ((page : ℕ) → length (rows_of (paginate p xs page (suc l))) ≤ suc l)
        × (first_pages p xs pages (suc l) ≡ find_many p xs)
  first_pages-paginate p xs l =
      let total = count_where p xs in
      let pages = (total + l) / suc l in
      (
        pages,
        refl,
        rows_le p xs (suc l),
        first_pages-take p xs pages (suc l)
            ∙ take-all (pages * suc l) (find_many p xs)
                (rw (length-find_many p xs) (pages_enough total l)),
      )
