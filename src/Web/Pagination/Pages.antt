-- ===== src/Web/Pagination/Pages.antt =====
-- The pages of internal/web/pagination.go cut a listing into its parts.
use Prim.Native.Nat.add
use native.Mathlib.Nat.{zero-mul}
use picoaide.Prelude.{
  ℕ, zero, suc, ◌+◌, ◌-◌, ◌*◌, ◌/◌, ◌≤◌, ◌<◌, String, ◌≡◌, refl, sym, ap, ◌∙◌, true, inl, inr,
  Bool-cases, List, [], ◌∷◌, ◌++◌, arith, ltb, if◌then◌else◌, length, take, drop, length-drop,
}
use picoaide.Web.Pagination.{
  PaginationQuery, Param, parse_pagination, paginate_slice, count_pages, slice, at_most,
}

-- Whatever the request says, an enabled query names a page from 1 on and a page size from 1 to
-- the endpoint's maximum (100 where the endpoint gives none).
pub parse_pagination_bounds :
    (page page_size : Param) (search : String) (d m : ℕ)
    → (parse_pagination page page_size search d m).enabled ≡ true
    → (1 ≤ (parse_pagination page page_size search d m).page)
      × (1 ≤ (parse_pagination page page_size search d m).page_size)
      × ((parse_pagination page page_size search d m).page_size ≤ (if ltb 0 m then m else 100))
unfolding parse_pagination
parse_pagination_bounds page page_size search d m h = ground arith

-- The query that asks for page `n` of pages of `size` items.
abbrev pub page_query : ℕ → ℕ → PaginationQuery
page_query n size = record { page = n; page_size = size; search = ""; enabled = true }

-- The items of pages 1 to `n`, one after another.
pub pages_up_to {ℓ} : {A : Type ℓ} → List A → ℕ → ℕ → List A
pages_up_to items size zero = []
pages_up_to items size (suc n) =
    pages_up_to items size n ++ (paginate_slice items (page_query (suc n) size)).items

page_start : (n t s : ℕ) → 1 ≤ s → n < (t + s - 1) / s → n * s < t
page_start n t s hs h = grind arith

page_end : (t s : ℕ) → 1 ≤ s → t ≤ ((t + s - 1) / s) * s
page_end t s hs = grind arith

page_start-le :
    (t n s : ℕ)
    → 1 ≤ s
    → n < count_pages t s
    → at_most ((at_most (suc n) (count_pages t s) - 1) * s) t ≡ n * s
page_start-le t n s hs h = ground (arith, page_start n t s hs)

module _ {ℓ} {A : Type ℓ} where
  take_nil : (n : ℕ) → take {A = A} n [] ≡ []
  take_nil zero = refl
  take_nil (suc n) = refl

  take-take-drop : (a b : ℕ) (xs : List A) → take a xs ++ take b (drop a xs) ≡ take (a + b) xs
  take-take-drop zero b xs = rw add.zero
  take-take-drop (suc a) b [] = rw (take_nil b, take_nil (suc a + b))
  take-take-drop (suc a) b (x ∷ xs) = rw (add.suc, take-take-drop a b xs)

  take_all : (n : ℕ) (xs : List A) → length xs ≤ n → take n xs ≡ xs
  take_all zero [] h = refl
  take_all (suc n) [] h = refl
  take_all zero (x ∷ xs) h = absurd (omega arith)
  take_all (suc n) (x ∷ xs) h = ap (λ ys. x ∷ ys) (take_all n xs (omega arith))

  slice-at_most :
      (items : List A) (start size : ℕ)
      → start ≤ length items
      → slice items start (at_most (start + size) (length items)) ≡ take size (drop start items)
  slice-at_most items start size h = elim (Bool-cases (ltb (length items) (start + size))) [
    | inl short ↦ rw short (
        take_all (length items - start) (drop start items) (omega (arith, length-drop start items))
        ∙ sym (take_all size (drop start items) (ground (arith, length-drop start items))))
    | inr full ↦ rw full (ap (λ k. take k (drop start items)) (omega arith))
  ]

  -- A page that the listing has is `size` items from its start, fewer at the end.
  items-paginate :
      (items : List A) (n size : ℕ)
      → 1 ≤ size
      → n < count_pages (length items) size
      → (paginate_slice items (page_query (suc n) size)).items ≡ take size (drop (n * size) items)
  unfolding paginate_slice
  items-paginate items n size hs h =
      let start = page_start-le (length items) n size hs h in
      rw start (slice-at_most items (n * size) size (ground (arith, start)))

  pages_up_to-eq-take :
      (items : List A) (size : ℕ)
      → 1 ≤ size
      → (n : ℕ) → n ≤ count_pages (length items) size
      → pages_up_to items size n ≡ take (n * size) items
  unfolding pages_up_to
  pages_up_to-eq-take items size hs zero h = rw (zero-mul size)
  pages_up_to-eq-take items size hs (suc n) h =
      rw
        (
          pages_up_to-eq-take items size hs n (omega arith),
          items-paginate items n size hs h,
          take-take-drop (n * size) size items,
        )
        (ap (λ k. take k items) (grind arith))

  -- The pages from the first to the last, put together, are the listing, whatever the page size
  -- (above zero): no item is lost or shown twice.
  pub pages_up_to_last :
      (items : List A) (size : ℕ)
      → 1 ≤ size
      → pages_up_to items size (count_pages (length items) size) ≡ items
  pages_up_to_last items size hs =
      pages_up_to-eq-take items size hs _ (omega arith)
      ∙ take_all _ items (grind (arith, page_end (length items) size hs))
