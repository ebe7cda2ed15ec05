-- ===== src/Number.antt =====
-- `to_string` and `str::parse` of the unsigned integers, as the standard library does them: the
-- program prints ports, indices and sizes, and parses TEST_JOBS, TEST_REPEAT and an SSH port.
use qemu_test.Prelude.{
  ℕ, zero, suc, ◌+◌, ◌-◌, ◌*◌, ◌/◌, ◌%◌, ◌^◌, ◌≤◌, ◌<◌, ◌≡◌, ◌≢◌, ◌∙◌, ap, refl, ◌&&◌, Result, ok,
  bail, [], ◌∷◌, ltb, leb, ◌==◌, if◌then◌else◌, Text, codes, All, Bool-cases, inl, inr, arith,
}

-- the digits of `n` before those of `out`; fuel above `n` is enough
emit : ℕ → ℕ → Text → Text
emit zero n out = out
emit (suc fuel) n out =
    let out' = (b'0' + n % 10) ∷ out in
    let rest = emit fuel (n / 10) out' in if ltb n 10 then out' else rest

unfoldable pub decimal : ℕ → Text
unfolding emit
decimal n = emit (suc n) n []

-- `Display` of `ParseIntError`
abbrev pub empty_error : Text
empty_error = codes "cannot parse integer from empty string"

abbrev pub invalid_digit : Text
invalid_digit = codes "invalid digit found in string"

abbrev pub pos_overflow : Text
pos_overflow = codes "number too large to fit in target type"

-- `max` is the greatest value of the type
scan : ℕ → Text → ℕ → Result ℕ
scan max [] n = ok n
scan max (c ∷ s) n =
    let rest = scan max s (n * 10 + (c - b'0')) in
    if leb b'0' c && leb c b'9'
    then if leb (n * 10 + (c - b'0')) max then rest else bail pos_overflow
    else bail invalid_digit

-- The standard library reads a leading `+`, and wants a digit.
unfoldable pub parse_max : ℕ → Text → Result ℕ
unfolding scan
parse_max max [] = bail empty_error
parse_max max (c ∷ []) = scan max (c ∷ []) 0
parse_max max (c ∷ d ∷ s) = scan max (if c == b'+' then d ∷ s else c ∷ d ∷ s) 0

abbrev pub usize_max : ℕ
usize_max = 2 ^ 64 - 1

abbrev pub u16_max : ℕ
u16_max = 2 ^ 16 - 1

unfoldable pub parse_usize : Text → Result ℕ
unfolding parse_max
parse_usize s = parse_max usize_max s

unfoldable pub parse_u16 : Text → Result ℕ
unfolding parse_max
parse_u16 s = parse_max u16_max s

scan_last :
    (max n : ℕ) (out : Text) → n ≤ max → scan max ((b'0' + n % 10) ∷ out) (n / 10) ≡ scan max out n
unfolding scan
scan_last max n out le =
    let e : n / 10 * 10 + (b'0' + n % 10 - b'0') ≡ n = omega arith in rw e (ground arith)

scan-emit :
    (max fuel n : ℕ) (out : Text)
    → n < fuel
    → n ≤ max
    → scan max (emit fuel n out) 0 ≡ scan max out n
unfolding emit
scan-emit max zero n out h le = elim h [ ]
scan-emit max (suc fuel) n out h le =
    ground (arith, scan_last max n out le, scan-emit max fuel (n / 10) ((b'0' + n % 10) ∷ out))

abbrev pub IsDigit : ℕ → Type 0
IsDigit digit = (b'0' ≤ digit) × (digit ≤ b'9')

emit-IsDigit : (fuel n : ℕ) (out : Text) → All IsDigit out → All IsDigit (emit fuel n out)
unfolding emit
emit-IsDigit zero n out h = h
emit-IsDigit (suc fuel) n out h =
    let digit : IsDigit (b'0' + n % 10) = omega arith in
    elim (Bool-cases (ltb n 10)) [
      | inl e ↦ rw e (digit, h)
      | inr e ↦ rw e (emit-IsDigit fuel (n / 10) ((b'0' + n % 10) ∷ out) (digit, h))
    ]

emit-ne-nil : (fuel n : ℕ) (out : Text) → out ≢ [] → emit fuel n out ≢ []
unfolding emit
emit-ne-nil zero n out h = h
emit-ne-nil (suc fuel) n out h = elim (Bool-cases (ltb n 10)) [
  | inl e ↦ rw e (λ p. cc)
  | inr e ↦ rw e (emit-ne-nil fuel (n / 10) ((b'0' + n % 10) ∷ out) (λ p. cc))
]

decimal-ne-nil : (n : ℕ) → decimal n ≢ []
unfolding decimal emit
decimal-ne-nil n = elim (Bool-cases (ltb n 10)) [
  | inl e ↦ rw e (λ p. cc)
  | inr e ↦ rw e (emit-ne-nil n (n / 10) ((b'0' + n % 10) ∷ []) (λ p. cc))
]

parse-scan : (max : ℕ) (s : Text) → s ≢ [] → All IsDigit s → parse_max max s ≡ scan max s 0
unfolding parse_max
parse-scan max [] h _ = absurd (h refl)
parse-scan max (c ∷ []) h _ = refl
parse-scan max (c ∷ d ∷ s) h (hc, _) = ground arith

-- A printed number holds digits alone.
pub decimal-IsDigit : (n : ℕ) → All IsDigit (decimal n)
unfolding decimal
decimal-IsDigit n = emit-IsDigit (suc n) n [] tt

-- A number in range is read back from its print.
pub parse-decimal : (max n : ℕ) → n ≤ max → parse_max max (decimal n) ≡ ok n
unfolding decimal scan
parse-decimal max n h =
    parse-scan max (decimal n) (decimal-ne-nil n) (decimal-IsDigit n)
    ∙ scan-emit max (suc n) n [] (omega arith) h

scan-le : (max : ℕ) (s : Text) (n r : ℕ) → n ≤ max → scan max s n ≡ ok r → r ≤ max
unfolding scan
scan-le max [] n r h e = ground arith
scan-le max (c ∷ s) n r h e = ground (arith, scan-le max s (n * 10 + (c - b'0')) r)

-- A number that is read fits the type.
pub parse-le : (max : ℕ) (s : Text) (r : ℕ) → parse_max max s ≡ ok r → r ≤ max
unfolding parse_max
parse-le max [] r h = cc
parse-le max (c ∷ []) r h = scan-le max (c ∷ []) 0 r (omega arith) h
parse-le max (c ∷ d ∷ s) r h =
    scan-le max (if c == b'+' then d ∷ s else c ∷ d ∷ s) 0 r (omega arith) h

small : (decimal 0 ≡ codes "0") × (decimal 1536 ≡ codes "1536")
unfolding decimal
small = (refl, refl)

refused :
    (parse_u16 (codes "65536") ≡ bail pos_overflow) × (parse_u16 (codes "+") ≡ bail invalid_digit)
unfolding parse_u16
refused = (refl, refl)

-- Numbers with the same print are the same.
pub decimal-injective : (m n : ℕ) → decimal m ≡ decimal n → m ≡ n
decimal-injective m n h =
    let pm = parse-decimal (m + n) m (omega arith) in
    let pn = parse-decimal (m + n) n (omega arith) in cc (pm, pn, ap (parse_max (m + n)) h)
