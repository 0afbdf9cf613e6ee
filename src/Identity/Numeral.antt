-- ===== src/Identity/Numeral.antt =====
-- The identifiers that are accepted, against the decimal numerals of the numbers from 1 to the largest
-- `bigint`.
use voyagi.Prelude.{
  ℕ, zero, suc, ◌+◌, ◌-◌, ◌*◌, ◌/◌, ◌%◌, ◌^◌, ◌≤◌, ◌<◌, ◌≡◌, refl, ◌∙◌, sym, ap, true, false, [],
  ◌∷◌, ◌++◌, some, all, ltb, ++_nil, ++_behind, Bool-cases, inl, inr, arith,
}
use voyagi.Identity.Identifier.{
  Text, is_digit, decimal, is_positive_integer, max_bigint, parse_positive_bigint,
}

-- The digits of a number below the power of ten of the fuel, the highest first.
digits : ℕ → ℕ → Text
digits zero n = []
digits (suc fuel) n = elim (ltb n 10) [
  | true ↦ (n + b'0') ∷ []
  | false ↦ digits fuel (n / 10) ++ (n % 10 + b'0') ∷ []
]

-- A number up to `max_bigint` has at most 19 digits.
unfoldable pub numeral : ℕ → Text
unfolding digits
numeral n = digits 19 n

decimal-snoc :
    (acc : ℕ) (cs : Text) (c : ℕ) → decimal acc (cs ++ c ∷ []) ≡ decimal acc cs * 10 + (c - b'0')
decimal-snoc acc [] c = refl
decimal-snoc acc (d ∷ cs) c = decimal-snoc (acc * 10 + (d - b'0')) cs c

decimal-digits : (fuel n : ℕ) → n < 10 ^ fuel → decimal 0 (digits fuel n) ≡ n
unfolding digits
decimal-digits zero n h = omega (arith, h)
decimal-digits (suc fuel) n h = elim (Bool-cases (ltb n 10)) [
  | inl e ↦ rw (digits, e) (omega arith)
  | inr e ↦
      let ih = decimal-digits fuel (n / 10) (ground (arith, h)) in
      rw (digits, e) (decimal-snoc 0 (digits fuel (n / 10)) (n % 10 + b'0') ∙ omega (arith, ih))
]

all-snoc :
    (cs : Text) (c : ℕ)
    → all is_digit cs ≡ true
    → is_digit c ≡ true
    → all is_digit (cs ++ c ∷ []) ≡ true
all-snoc [] c h d = rw d refl
all-snoc (x ∷ cs) c h d = ground (arith, all-snoc cs c, h, d)

positive-snoc :
    (cs : Text) (c : ℕ)
    → is_positive_integer cs ≡ true
    → is_digit c ≡ true
    → is_positive_integer (cs ++ c ∷ []) ≡ true
positive-snoc [] c h d = absurd (ground arith)
positive-snoc (x ∷ cs) c h d = ground (arith, all-snoc cs c, h, d)

positive-digits : (fuel n : ℕ) → 0 < n → n < 10 ^ fuel → is_positive_integer (digits fuel n) ≡ true
unfolding digits
positive-digits zero n p h = absurd (omega (arith, h))
positive-digits (suc fuel) n p h = elim (Bool-cases (ltb n 10)) [
  | inl e ↦ rw (digits, e) (ground (arith, e))
  | inr e ↦
      rw (digits, e)
        (positive-snoc (digits fuel (n / 10)) (n % 10 + b'0')
          (positive-digits fuel (n / 10) (ground (arith, e)) (ground (arith, h))) (ground arith))
]

-- Enough fuel is enough.
digits_fuel : (f g n : ℕ) → 0 < n → n < 10 ^ f → n < 10 ^ g → digits f n ≡ digits g n
unfolding digits
digits_fuel zero g n p h k = absurd (omega (arith, h))
digits_fuel (suc f) zero n p h k = absurd (omega (arith, k))
digits_fuel (suc f) (suc g) n p h k = elim (Bool-cases (ltb n 10)) [
  | inl e ↦ rw (digits, e) refl
  | inr e ↦
      rw (digits, e)
        (ap (λ cs. cs ++ (n % 10 + b'0') ∷ [])
          (digits_fuel f g (n / 10) (ground (arith, e)) (ground (arith, h)) (ground (arith, k))))
]

digits_next :
    (f acc c : ℕ)
    → 0 < acc
    → is_digit c ≡ true
    → digits (suc f) (acc * 10 + (c - b'0')) ≡ digits f acc ++ c ∷ []
unfolding digits
digits_next f acc c p d =
    let big : ltb (acc * 10 + (c - b'0')) 10 ≡ false = ground (arith, p) in
    let front : (acc * 10 + (c - b'0')) / 10 ≡ acc = ground (arith, d) in
    let last : (acc * 10 + (c - b'0')) % 10 + b'0' ≡ c = ground (arith, d) in
    rw (digits, big, front, last) refl

digits-decimal :
    (f g acc : ℕ) (cs : Text)
    → 0 < acc
    → acc < 10 ^ f
    → all is_digit cs ≡ true
    → decimal acc cs < 10 ^ g
    → digits g (decimal acc cs) ≡ digits f acc ++ cs
digits-decimal f g acc [] p h d k = digits_fuel g f acc p k h ∙ ++_nil (digits f acc)
digits-decimal f g acc (c ∷ cs) p h d k =
    let here : is_digit c ≡ true = ground (arith, d) in
    digits-decimal (suc f) g (acc * 10 + (c - b'0')) cs (ground (arith, p))
      (ground (arith, h, here)) (ground (arith, d)) k
    ∙ (ap (λ xs. xs ++ cs) (digits_next f acc c p here) ∙ ++_behind (digits f acc) cs c)

-- Every text of digits without a leading zero is the numeral of its value.
numeral-decimal :
    (cs : Text)
    → is_positive_integer cs ≡ true
    → decimal 0 cs ≤ max_bigint
    → numeral (decimal 0 cs) ≡ cs
unfolding numeral digits
numeral-decimal [] h k = absurd (ground arith)
numeral-decimal (c ∷ cs) h k =
    let v = 0 * 10 + (c - b'0') in
    let fits : decimal v cs ≤ max_bigint = k in
    let small : ltb v 10 ≡ true = ground (arith, h) in
    let first : v + b'0' ≡ c = ground (arith, h) in
    digits-decimal 1 19 v cs (ground (arith, h)) (ground (arith, h)) (ground (arith, h))
      (omega (arith, fits))
    ∙ rw (digits, small, first) refl

-- An accepted text comes back unchanged, and is the decimal numeral of its value, which is positive and
-- within `bigint`.
pub parse_positive_bigint_range :
    (cs : Text) {t : Text}
    → parse_positive_bigint cs ≡ some t
    → (t ≡ cs) × (cs ≡ numeral (decimal 0 cs)) × (0 < decimal 0 cs) × (decimal 0 cs ≤ max_bigint)
unfolding parse_positive_bigint
parse_positive_bigint_range cs {t} h = elim (Bool-cases (is_positive_integer cs)) [
  | inr e ↦ absurd (ground (arith, rw (parse_positive_bigint, e) at h))
  | inl e ↦ elim (Bool-cases (ltb max_bigint (decimal 0 cs))) [
    | inl m ↦ absurd (ground (arith, rw (parse_positive_bigint, e, m) at h))
    | inr m ↦
        let same : some cs ≡ some t = rw (parse_positive_bigint, e, m) at h in
        let small : decimal 0 cs ≤ max_bigint = ground (arith, m) in
        (cc, sym (numeral-decimal cs e small), positive cs e, small)
  ]
]
  where
    grows : (acc : ℕ) (xs : Text) → acc ≤ decimal acc xs
    grows acc [] = omega arith
    grows acc (x ∷ xs) = omega (arith, grows (acc * 10 + (x - b'0')) xs)

    positive : (xs : Text) → is_positive_integer xs ≡ true → 0 < decimal 0 xs
    positive [] p = absurd (ground arith)
    positive (x ∷ xs) p = ground (arith, grows (0 * 10 + (x - b'0')) xs)

-- The decimal numeral of every number from 1 to the largest `bigint` is accepted as it is, and its
-- value is that number.
pub parse_positive_bigint-numeral :
    (n : ℕ)
    → 0 < n
    → n ≤ max_bigint
    → (parse_positive_bigint (numeral n) ≡ some (numeral n)) × (decimal 0 (numeral n) ≡ n)
unfolding parse_positive_bigint numeral digits
parse_positive_bigint-numeral n p h =
    let bound : n < 10 ^ 19 = omega (arith, h) in
    let value : decimal 0 (numeral n) ≡ n = decimal-digits 19 n bound in
    let shape : is_positive_integer (numeral n) ≡ true = positive-digits 19 n p bound in
    let fits : ltb max_bigint (decimal 0 (numeral n)) ≡ false = rw value (ground (arith, h)) in
    (rw (parse_positive_bigint, shape, fits) refl, value)
