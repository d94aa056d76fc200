-- ===== src/Utf8.antt =====
-- The standard library's `String::from_utf8_lossy`: bytes that are UTF-8 are kept, and each
-- ill-formed sequence becomes the replacement character.
use conflict_free_oltp_v.Base.{
  ℕ, zero, suc, Bool, true, ◌&&◌, [], ◌∷◌, ◌++◌, leb, length, if◌then◌else◌, Bytes, Str, ◌≡◌, refl,
  all, ltb, arith,
}

abbrev in_range : ℕ → ℕ → ℕ → Bool
in_range lo hi b = leb lo b && leb b hi

-- The range of the byte after the lead byte of a sequence of three or four.
second_ok : ℕ → ℕ → Bool
second_ok lead b =
    if leb lead 0xe0
    then in_range 0xa0 0xbf b
    else if leb lead 0xec
    then in_range 0x80 0xbf b
    else if leb lead 0xed
    then in_range 0x80 0x9f b
    else if leb lead 0xef
    then in_range 0x80 0xbf b
    else if leb lead 0xf0
    then in_range 0x90 0xbf b
    else if leb lead 0xf3
    then in_range 0x80 0xbf b
    else in_range 0x80 0x8f b

abbrev next_ok : ℕ → Bool
next_ok b = in_range 0x80 0xbf b

abbrev replacement : Bytes
replacement = 0xef ∷ 0xbf ∷ 0xbd ∷ []

-- A sequence that breaks off is replaced as a whole, and what follows it is read anew.
two : ℕ → Bytes → Bytes × Bytes
two lead [] = (replacement, [])
two lead (b ∷ l) = if next_ok b then (lead ∷ b ∷ [], l) else (replacement, b ∷ l)

three : ℕ → Bytes → Bytes × Bytes
three lead [] = (replacement, [])
three lead (b ∷ []) = if second_ok lead b then (replacement, []) else (replacement, b ∷ [])
three lead (b ∷ c ∷ l) =
    if second_ok lead b
    then if next_ok c then (lead ∷ b ∷ c ∷ [], l) else (replacement, c ∷ l)
    else (replacement, b ∷ c ∷ l)

four : ℕ → Bytes → Bytes × Bytes
four lead [] = (replacement, [])
four lead (b ∷ []) = if second_ok lead b then (replacement, []) else (replacement, b ∷ [])
four lead (b ∷ c ∷ []) =
    if second_ok lead b
    then if next_ok c then (replacement, []) else (replacement, c ∷ [])
    else (replacement, b ∷ c ∷ [])
four lead (b ∷ c ∷ d ∷ l) =
    if second_ok lead b
    then if next_ok c
      then if next_ok d then (lead ∷ b ∷ c ∷ d ∷ [], l) else (replacement, d ∷ l)
      else (replacement, c ∷ d ∷ l)
    else (replacement, b ∷ c ∷ d ∷ l)

-- One step: what it puts out, and what is left.
lossy_step : ℕ → Bytes → Bytes × Bytes
unfolding two three four second_ok
lossy_step lead l =
    if leb lead 0x7f
    then (lead ∷ [], l)
    else if in_range 0xc2 0xdf lead
    then two lead l
    else if in_range 0xe0 0xef lead
    then three lead l
    else if in_range 0xf0 0xf4 lead
    then four lead l
    else (replacement, l)

-- Each round reads at least a byte, so that the length is fuel enough.
lossy_rounds : ℕ → Bytes → Bytes
unfolding lossy_step
lossy_rounds zero l = []
lossy_rounds (suc fuel) [] = []
lossy_rounds (suc fuel) (b ∷ l) = let (out, rest) = lossy_step b l in out ++ lossy_rounds fuel rest

unfoldable pub from_utf8_lossy : Bytes → Str
unfolding lossy_rounds
from_utf8_lossy l = lossy_rounds (length l) l

-- ASCII is kept as it is.
pub from_utf8_lossy_ascii : (l : Bytes) → all (λ b. ltb b 0x80) l ≡ true → from_utf8_lossy l ≡ l
unfolding from_utf8_lossy
from_utf8_lossy_ascii [] h = refl
from_utf8_lossy_ascii (b ∷ l) h = ground (arith, from_utf8_lossy_ascii l)

euro : from_utf8_lossy (0xe2 ∷ 0x82 ∷ 0xac ∷ 0x41 ∷ []) ≡ 0xe2 ∷ 0x82 ∷ 0xac ∷ 0x41 ∷ []
unfolding from_utf8_lossy
euro = refl

broken_off : from_utf8_lossy (0xe2 ∷ 0x82 ∷ 0x41 ∷ []) ≡ 0xef ∷ 0xbf ∷ 0xbd ∷ 0x41 ∷ []
unfolding from_utf8_lossy
broken_off = refl
