-- ===== src/Pagination/Bounds.antt =====
-- The bounds that a query gets, and the pages that a total makes.
use voyagi.Prelude.{
  true, ◌^◌, ◌⊎◌, subst, ap, ◌∙◌, ltb, Bool-cases, inl, inr, ℕ, zero, suc, min, ◌+◌, ◌-◌, ◌*◌, ◌/◌,
  ◌≤◌, ◌<◌, ◌≡◌, refl, Option, none, some, arith,
}
use native.Mathlib.Nat.{div-div-eq-div-mul}
use voyagi.Pagination.{
  excess, max_safe, round_double, to_double, JsNumber, not_finite, positive, negative,
  to_positive_int, resolve_pagination, safe_total, build_pagination_meta,
}

to_positive_int_pos : (v : Option JsNumber) (d : ℕ) → 1 ≤ d → 1 ≤ to_positive_int v d
unfolding to_positive_int
to_positive_int_pos none d h = h
to_positive_int_pos (some not_finite) d h = h
to_positive_int_pos (some (positive w f)) d h = ground arith
to_positive_int_pos (some (negative w f)) d h = h

skip_pages : (p s : ℕ) → 1 ≤ p → (p - 1) * s + s ≡ p * s
skip_pages zero s h = absurd (omega arith)
skip_pages (suc p) s h = grind arith

div_bounds : (i s : ℕ) → 1 ≤ s → (i / s * s ≤ i) × (i < (i / s + 1) * s)
div_bounds i s h = grind arith

ceil_bounds : (t s i : ℕ) → 1 ≤ s → i < t → i / s + 1 ≤ (t + s - 1) / s
ceil_bounds t s i h lt = grind (arith, div_bounds i s, div_bounds (t + s - 1) s)

last_page : (t s : ℕ) → 1 ≤ s → 0 < t → ((t + s - 1) / s - 1) * s < t
last_page t s h lt =
    let q = (t + s - 1) / s in
    let b = div_bounds (t + s - 1) s h in
    let pos : 1 ≤ q = omega (arith, ceil_bounds t s 0 h lt) in omega (arith, b, skip_pages q s pos)

limit_bounds :
    (page page_size : Option JsNumber)
    → let r = resolve_pagination page page_size in
      (1 ≤ r.page) × (1 ≤ r.limit) × (r.limit ≤ 100) × (r.limit ≡ r.page_size)
unfolding resolve_pagination
limit_bounds page page_size =
    let hs = to_positive_int_pos page_size 20 (omega arith) in
    (to_positive_int_pos page 1 (omega arith), omega (arith, hs), omega arith, refl)

excess_none : (fuel n : ℕ) → n < max_safe → excess fuel n ≡ 0
unfolding excess
excess_none zero n h = refl
excess_none (suc fuel) n h =
    let e : ltb n max_safe ≡ true = ground (arith, h) in rw (excess, e) refl

-- With a round for each bit above 53, the halvings reach a number of 53 bits.
excess_reaches : (fuel n : ℕ) → n < max_safe * 2 ^ fuel → n / 2 ^ excess fuel n < max_safe
unfolding excess
excess_reaches zero n h = ground (arith, h)
excess_reaches (suc fuel) n h = elim (Bool-cases (ltb n max_safe)) [
  | inl e ↦ rw (excess, e) (ground (arith, e))
  | inr e ↦
      let k = excess fuel (n / 2) in
      let power : 2 * 2 ^ k ≡ 2 ^ suc k = omega arith in
      rw (excess, e)
        (subst (λ m. m < max_safe) (div-div-eq-div-mul n 2 (2 ^ k) ∙ ap (λ m. n / m) power)
          (excess_reaches fuel (n / 2) (ground (arith, h))))
]

round_double_exact : (n : ℕ) → n < max_safe → round_double n ≡ n
unfolding round_double
round_double_exact n h = rw (round_double, excess_none 1000 n h) (ground arith)

factor_le : (a s : ℕ) → 1 ≤ s → a ≤ a * s
factor_le a s h = grind arith

to_double_exact : (n : ℕ) → n < 2 ^ 53 → to_double n ≡ positive n 0
unfolding to_double
to_double_exact n h =
    let e : ltb n (2 ^ 1024) ≡ true = ground (arith, h) in
    rw (to_double, round_double_exact n h, e) refl

-- Whatever the request holds, the page is at least 1 and the limit is from 1 to 100; and where the rows
-- before the page are fewer than 2 ^ 53, the offset is their number.
pub resolve_pagination_bounds :
    (page page_size : Option JsNumber)
    → let r = resolve_pagination page page_size in
      (1 ≤ r.page)
      × (1 ≤ r.limit)
      × (r.limit ≤ 100)
      × (r.limit ≡ r.page_size)
      × ((2 ^ 53 ≤ (r.page - 1) * r.limit) ⊎ (r.offset ≡ positive ((r.page - 1) * r.limit) 0))
unfolding resolve_pagination
resolve_pagination_bounds page page_size =
    let p = to_positive_int page 1 in
    let s = min 100 (to_positive_int page_size 20) in
    let (hp, hs, hl, he) = limit_bounds page page_size in
    (
      hp,
      hs,
      hl,
      he,
      elim (Bool-cases (ltb ((p - 1) * s) (2 ^ 53))) [
        | inr big ↦ inl (ground (arith, big))
        | inl few ↦
            let bound : (p - 1) * s < 2 ^ 53 = ground (arith, few) in
            inr (
              rw (round_double_exact (p - 1) (omega (arith, bound, factor_le (p - 1) s hs)))
                (to_double_exact ((p - 1) * s) bound))
      ],
    )

-- With the limit of a resolved request, every row of the total lies on one of the pages that the
-- metadata counts, and no counted page is empty.
pub total_pages_cover :
    (page page_size : Option JsNumber) (total : JsNumber) (i : ℕ)
    → i < safe_total total
    → let r = resolve_pagination page page_size in
      let m = build_pagination_meta r.page r.page_size total in
      let k = i / r.limit + 1 in
      (k ≤ m.total_pages)
      × ((k - 1) * r.limit ≤ i)
      × (i < k * r.limit)
      × ((m.total_pages - 1) * r.limit < m.total)
unfolding build_pagination_meta
total_pages_cover page page_size total i h =
    let r = resolve_pagination page page_size in
    let s = r.limit in
    let hs : 1 ≤ s = (limit_bounds page page_size).1 in
    let same : r.limit ≡ r.page_size = (limit_bounds page page_size).3 in
    let d = div_bounds i s hs in
    ground (
      arith,
      hs,
      same,
      ceil_bounds (safe_total total) s i hs h,
      d,
      last_page (safe_total total) s hs (omega (arith, h)),
    )
