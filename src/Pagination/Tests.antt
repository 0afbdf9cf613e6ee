-- ===== src/Pagination/Tests.antt =====
-- Requests for pages: a query of 0 and 250, and the 41st of 245 rows.
use voyagi.Prelude.{refl, ◌^◌, ◌⊎◌, ◌+◌, ◌-◌, ◌*◌, ◌/◌, ◌≤◌, ◌<◌, ◌≡◌, none, some, arith}
use voyagi.Pagination.{
  not_finite, to_positive_int, to_double, round_double, excess, positive, resolve_pagination,
  safe_total, build_pagination_meta,
}
use voyagi.Pagination.Bounds.{resolve_pagination_bounds, total_pages_cover}

resolve_pagination_bounds_example :
    let r = resolve_pagination (some (positive 0 5)) (some (positive 250 0)) in
    (1 ≤ r.page)
    × (1 ≤ r.limit)
    × (r.limit ≤ 100)
    × (r.limit ≡ r.page_size)
    × ((2 ^ 53 ≤ (r.page - 1) * r.limit) ⊎ (r.offset ≡ positive ((r.page - 1) * r.limit) 0))
resolve_pagination_bounds_example =
    resolve_pagination_bounds (some (positive 0 5)) (some (positive 250 0))

-- 2 ^ 53 + 1 lies between two doubles, and the even one is taken; the largest double has a page whose
-- offset is infinite.
rounds :
    (to_double (2 ^ 53 + 1) ≡ positive (2 ^ 53) 0)
    × (to_double (2 ^ 53 + 3) ≡ positive (2 ^ 53 + 4) 0)
unfolding to_double round_double excess
rounds = (refl, refl)

overflows :
    (resolve_pagination (some (positive (2 ^ 1024 - 2 ^ 971) 0)) (some (positive 100 0))).offset
    ≡ not_finite
unfolding resolve_pagination to_positive_int to_double round_double excess
overflows = refl

total_pages_cover_example :
    let r = resolve_pagination none (some (positive 10 0)) in
    let m = build_pagination_meta r.page r.page_size (positive 245 0) in
    let k = 40 / r.limit + 1 in
    (k ≤ m.total_pages)
    × ((k - 1) * r.limit ≤ 40)
    × (40 < k * r.limit)
    × ((m.total_pages - 1) * r.limit < m.total)
unfolding safe_total
total_pages_cover_example =
    total_pages_cover none (some (positive 10 0)) (positive 245 0) 40 (omega arith)
