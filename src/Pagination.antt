-- ===== src/Pagination.antt =====
-- common/pagination/pagination.ts.
pub mod Bounds
pub mod Tests
use voyagi.Prelude.{
  zero, suc, true, false, ◌%◌, ◌^◌, ◌||◌, ◌&&◌, ◌==◌, ℕ, ◌+◌, ◌-◌, ◌*◌, ◌/◌, min, Option, none,
  some, leb, ltb, if◌then◌else◌,
}

-- A JavaScript number: NaN and the infinities, or a sign, a whole part and a fraction; a request holds
-- only such as a double can.
pub data JsNumber : Type 0 where
  not_finite : JsNumber
  positive negative : (whole fraction : ℕ) → JsNumber

abbrev default_page : ℕ
default_page = 1

abbrev default_page_size : ℕ
default_page_size = 20

abbrev max_page_size : ℕ
max_page_size = 100

pub record ResolvedPagination : Type 0 where
  pub page : ℕ
  pub page_size : ℕ
  pub limit : ℕ
  pub offset : JsNumber

unfoldable pub to_positive_int : Option JsNumber → ℕ → ℕ
to_positive_int none fallback = fallback
to_positive_int (some not_finite) fallback = fallback
to_positive_int (some (positive whole _)) fallback = if leb 1 whole then whole else fallback
to_positive_int (some (negative _ _)) fallback = fallback

-- Arithmetic on whole doubles: how many times a number is halved until 53 bits hold it, and the nearest
-- number with 53 bits, of two the even one. A product of a double and a page size is below 2 ^ 1031,
-- which is 978 halvings.
abbrev pub max_safe : ℕ
max_safe = 2 ^ 53

pub excess : ℕ → ℕ → ℕ
excess zero n = 0
excess (suc fuel) n = elim (ltb n max_safe) [ true ↦ 0 | false ↦ suc (excess fuel (n / 2)) ]

abbrev round_even : (quotient rest unit : ℕ) → ℕ
round_even quotient rest unit =
    if ltb unit (2 * rest) || (2 * rest == unit && quotient % 2 == 1)
    then quotient + 1
    else quotient

unfoldable pub round_double : ℕ → ℕ
unfolding excess
round_double n = let unit = 2 ^ excess 1000 n in round_even (n / unit) (n % unit) unit * unit

unfoldable pub to_double : ℕ → JsNumber
unfolding round_double
to_double n = if ltb (round_double n) (2 ^ 1024) then positive (round_double n) 0 else not_finite

unfoldable pub resolve_pagination : Option JsNumber → Option JsNumber → ResolvedPagination
resolve_pagination page page_size =
    let p = to_positive_int page default_page in
    let size = min max_page_size (to_positive_int page_size default_page_size) in
    record {
      page = p;
      page_size = size;
      limit = size;
      offset = to_double (round_double (p - 1) * size);
    }

pub record PaginationMeta : Type 0 where
  pub page : ℕ
  pub page_size : ℕ
  pub total : ℕ
  pub total_pages : ℕ

-- `Math.max(0, Math.trunc(total))`, where `total` is finite.
unfoldable pub safe_total : JsNumber → ℕ
safe_total not_finite = 0
safe_total (positive whole _) = whole
safe_total (negative _ _) = 0

unfoldable pub build_pagination_meta : ℕ → ℕ → JsNumber → PaginationMeta
build_pagination_meta page page_size total =
    let t = safe_total total in
    record {
      page = page;
      page_size = page_size;
      total = t;
      total_pages = if ltb 0 page_size then (t + page_size - 1) / page_size else 0;
    }
