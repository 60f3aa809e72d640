-- ===== src/Web/Pagination.antt =====
-- internal/web/pagination.go: the page parameters of a listing, and the page itself.
pub mod Pages
use picoaide.Prelude.{
  ℕ, ◌+◌, ◌-◌, ◌*◌, ◌/◌, String, Bool, true, false, Option, none, some, List, ltb, if◌then◌else◌,
  not, ◌||◌, length, take, drop, str_eq,
}

pub record PaginationQuery : Type 0 where
  pub page : ℕ
  pub page_size : ℕ
  pub search : String
  pub enabled : Bool

-- A parameter of the request after `strings.TrimSpace` and `strconv.Atoi`: `none` where it is
-- empty, no number, or not above zero.
abbrev pub Param : Type 0
Param = Option ℕ

-- `n, err := strconv.Atoi(raw); err == nil && n > 0`
abbrev pub positive : Param → Option ℕ
positive none = none
positive (some n) = if ltb 0 n then some n else none

abbrev pub or_default : Option ℕ → ℕ → ℕ
or_default none d = d
or_default (some n) d = n

abbrev pub is_some : Option ℕ → Bool
is_some none = false
is_some (some _) = true

-- `if x <= 0 { x = d }`
abbrev pub unless_zero : ℕ → ℕ → ℕ
unless_zero x d = if ltb 0 x then x else d

-- the four tests on an enabled query
abbrev pub bounded_size : ℕ → ℕ → ℕ → ℕ
bounded_size size default_page_size max_page_size =
    let s = unless_zero (unless_zero size default_page_size) 20 in
    let m = unless_zero max_page_size 100 in if ltb m s then m else s

-- `search` comes trimmed and in lower case.
unfoldable pub parse_pagination : Param → Param → String → ℕ → ℕ → PaginationQuery
parse_pagination page page_size search default_page_size max_page_size =
    let enabled =
      is_some (positive page) || (is_some (positive page_size) || not (str_eq search "")) in
    let size = or_default (positive page_size) 0 in
    record {
      page = or_default (positive page) 1;
      page_size = if enabled then bounded_size size default_page_size max_page_size else size;
      search = search;
      enabled = enabled;
    }

-- What `paginateSlice` returns.
pub record Page {ℓ} (A : Type ℓ) : Type ℓ where
  pub items : List A
  pub total : ℕ
  pub total_pages : ℕ
  pub page : ℕ
  pub page_size : ℕ

-- `items[start:end]`
abbrev pub slice {ℓ} : {A : Type ℓ} → List A → ℕ → ℕ → List A
slice items start end = take (end - start) (drop start items)

abbrev pub at_most : ℕ → ℕ → ℕ
at_most x bound = if ltb bound x then bound else x

abbrev pub count_pages : ℕ → ℕ → ℕ
count_pages total size = let n = (total + size - 1) / size in if ltb n 1 then 1 else n

pub paginate_slice {ℓ} : {A : Type ℓ} → List A → PaginationQuery → Page A
paginate_slice items p =
    let total = length items in
    if not p.enabled
    then record { items = items; total = total; total_pages = 1; page = 1; page_size = 0 }
    else let total_pages = count_pages total p.page_size in
      let page = at_most p.page total_pages in
      let start = at_most ((page - 1) * p.page_size) total in
      let end = at_most (start + p.page_size) total in
      record {
        items = slice items start end;
        total = total;
        total_pages = total_pages;
        page = page;
        page_size = p.page_size;
      }
