-- ===== src/Sql/Parser/Decimals.antt =====
-- The literals of src/sql/parser.rs against the decimal print of numbers.
use conflict_free_oltp_v.Base.{
  ℕ, zero, suc, ◌+◌, ◌*◌, ◌-◌, ◌/◌, ◌%◌, ◌<◌, Bool, true, ◌&&◌, none, some, [], ◌∷◌, ◌++◌, ltb, leb,
  if◌then◌else◌, map_option, ◌≡◌, sym, ap, ◌∙◌, arith, Str, pos, i64_half, u64_range, Bool-cases,
  inl, inr,
}
use conflict_free_oltp_v.Sql.Values.{SqlValue}
use conflict_free_oltp_v.Sql.Syntax.{Value, SqlCrate}
use conflict_free_oltp_v.Sql.Parser.{
  digits, unsigned, within_i64, parse_i64, parse_usize, trim_start_matches, placeholder_index,
  convert_number, convert_value,
}

-- The decimal print of a number; its value is fuel enough.
decimal_rounds : ℕ → ℕ → Str
decimal_rounds zero n = []
decimal_rounds (suc fuel) n =
    let rest = decimal_rounds fuel (n / 10) in
    if ltb n 10 then (b'0' + n) ∷ [] else rest ++ (b'0' + n % 10) ∷ []

pub decimal : ℕ → Str
unfolding decimal_rounds
decimal n = decimal_rounds (suc n) n

abbrev is_digit : ℕ → Bool
is_digit c = leb b'0' c && leb c b'9'

digits-snoc :
    (read : ℕ) (s : Str) (c : ℕ)
    → is_digit c ≡ true
    → digits read (s ++ c ∷ []) ≡ map_option (λ r. r * 10 + (c - b'0')) (digits read s)
unfolding digits
digits-snoc read [] c h = ground arith
digits-snoc read (d ∷ s) c h = ground (arith, digits-snoc (read * 10 + (d - b'0')) s c)

digits-decimal_rounds : (fuel n : ℕ) → n < fuel → digits 0 (decimal_rounds fuel n) ≡ some n
unfolding decimal_rounds digits
digits-decimal_rounds zero n h = absurd (omega arith)
digits-decimal_rounds (suc fuel) n h = elim (Bool-cases (ltb n 10)) [
  | inl small ↦ rw small (ground arith)
  | inr large ↦ rw large (
      digits-snoc 0 (decimal_rounds fuel (n / 10)) (b'0' + n % 10) (ground arith)
      ∙ ap (map_option (λ r. r * 10 + (b'0' + n % 10 - b'0')))
          (digits-decimal_rounds fuel (n / 10) (ground arith))
      ∙ ap some (ground arith))
]

-- The print starts with a digit.
starts-decimal_rounds :
    (fuel n : ℕ)
    → n < fuel
    → (c : ℕ) × (s : Str) × (decimal_rounds fuel n ≡ c ∷ s) × (is_digit c ≡ true)
unfolding decimal_rounds
starts-decimal_rounds zero n h = absurd (omega arith)
starts-decimal_rounds (suc fuel) n h = elim (Bool-cases (ltb n 10)) [
  | inl small ↦ (b'0' + n, [], rw small, ground arith)
  | inr large ↦
      let (c, s, e, d) = starts-decimal_rounds fuel (n / 10) (ground arith) in
      (c, s ++ (b'0' + n % 10) ∷ [], rw (large, e), d)
]

-- Both facts, for the whole print.
decimal_reads :
    (n : ℕ)
    → (c : ℕ) × (s : Str) × (decimal n ≡ c ∷ s) × (is_digit c ≡ true) × (unsigned (c ∷ s) ≡ some n)
unfolding decimal unsigned
decimal_reads n =
    let (c, s, e, d) = starts-decimal_rounds (suc n) n (omega arith) in
    (c, s, e, d, ap (digits 0) (sym e) ∙ digits-decimal_rounds (suc n) n (omega arith))

parse_i64-decimal : (n : ℕ) → parse_i64 (decimal n) ≡ within_i64 n
unfolding parse_i64
parse_i64-decimal n = let (c, s, e, d, r) = decimal_reads n in rw e (ground (arith, r))

-- The literal that is the decimal print of a natural number is read as that integer if it is below
-- 2 to the 63, and from there on as the float that the standard library reads from it, or as text
-- if it reads none.
pub convert_value-decimal :
    (lib : SqlCrate) (n : ℕ)
    → convert_value lib (Value.number (decimal n)) ≡ (
        if ltb n i64_half then SqlValue.integer (pos n) else elim (lib.parse_f64 (decimal n)) [
          | some bits ↦ SqlValue.float bits
          | none ↦ SqlValue.text (decimal n)
        ])
unfolding convert_value convert_number
convert_value-decimal lib n = ground (arith, parse_i64-decimal n)

pub convert_value-placeholder :
    (lib : SqlCrate) (n : ℕ)
    → suc n < u64_range
    → convert_value lib (Value.placeholder (b'$' ∷ decimal (suc n))) ≡ SqlValue.placeholder n
unfolding convert_value placeholder_index trim_start_matches parse_usize
convert_value-placeholder lib n h =
    let (c, s, e, d, r) = decimal_reads (suc n) in rw e (ground (arith, r))
