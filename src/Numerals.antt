-- ===== src/Numerals.antt =====
-- `strtol` and `strtoll` of the C library in base 10, which src/linq.c and src/counter.c call. Both
-- have 64 bits; the value is given modulo 2^64.
use klunok.Prelude.{
  ℕ, ◌+◌, ◌-◌, ◌*◌, ◌^◌, ◌%◌, ◌<◌, [], ◌∷◌, Bool, true, false, ◌&&◌, ◌||◌, Text, ◌==◌, ltb, leb,
  ◌≡◌, refl, ◌∙◌, arith, if◌then◌else◌,
}
use klunok.Buffer.{size_mod}
use klunok.Buffer.Decimal.{decimal, value_from, value-decimal, IsDigits, IsDigits-decimal}

abbrev is_blank : ℕ → Bool
is_blank c = c == b' ' || (leb 9 c && leb c 13)

abbrev is_digit : ℕ → Bool
is_digit c = leb b'0' c && leb c b'9'

-- The digits that the text starts with.
unfoldable pub leading : ℕ → Text → ℕ
leading v [] = v
leading v (c ∷ t) = let rest = leading (v * 10 + (c - b'0')) t in if is_digit c then rest else v

abbrev at_most : ℕ → ℕ → ℕ
at_most m n = if ltb m n then m else n

unfoldable pub signed : Text → ℕ
signed [] = 0
signed (c ∷ t) =
    if c == b'-'
    then (size_mod - at_most (2 ^ 63) (leading 0 t)) % size_mod
    else if c == b'+'
    then at_most (2 ^ 63 - 1) (leading 0 t)
    else at_most (2 ^ 63 - 1) (leading 0 (c ∷ t))

unfoldable pub strtol : Text → ℕ
strtol [] = 0
strtol (c ∷ t) = let rest = strtol t in if is_blank c then rest else signed (c ∷ t)

leading-value : (v : ℕ) (t : Text) → IsDigits t → leading v t ≡ value_from v t
unfolding leading value_from
leading-value v [] w = refl
leading-value v (c ∷ t) w =
    let digit : is_digit c ≡ true = ground (arith, w.0) in
    rw digit (leading-value (v * 10 + (c - b'0')) t w.2)

strtol-value : (t : Text) → IsDigits t → value_from 0 t < 2 ^ 63 → strtol t ≡ value_from 0 t
unfolding strtol signed
strtol-value [] w small = unfold value_from in refl
strtol-value (c ∷ t) w small =
    let blank : is_blank c ≡ false = ground (arith, w.0) in
    let minus : (c == b'-') ≡ false = ground (arith, w.0) in
    let plus : (c == b'+') ≡ false = ground (arith, w.0) in
    rw (blank, minus, plus, leading-value 0 (c ∷ t) w) (ground (arith, small))

-- What is written in decimal reads back as the number.
pub strtol-decimal : (n : ℕ) → n < 2 ^ 63 → strtol (decimal n) ≡ n
strtol-decimal n small =
    let e = value-decimal n (omega (arith, small)) in
    strtol-value (decimal n) (IsDigits-decimal n (omega (arith, small))) (rw e small) ∙ e
