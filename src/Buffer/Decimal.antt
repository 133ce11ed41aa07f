-- ===== src/Buffer/Decimal.antt =====
-- `concat_size` of src/buffer.c: a number is appended in decimal, or nothing is.
use klunok.Prelude.{
  ℕ, zero, suc, ◌+◌, ◌-◌, ◌*◌, ◌/◌, ◌%◌, ◌^◌, ◌≤◌, ◌<◌, [], ◌∷◌, ◌++◌, Text, ◌≡◌, refl, ap, ◌∙◌,
  arith, true, false, length, length-append, append_assoc, append-nil, leb, ltb, ◌==◌,
  if◌then◌else◌, suc-==-zero, Bool-cases, inl, inr,
}
use native.Mathlib.Nat.{div-lt_iff_lt-mul, div-add-mod, mod-lt}
use klunok.Trace.{Host, ok}
use klunok.Buffer.{
  Buffer, size_mod, find_power, concat_char, concat_digits, concat_size, set_length, get_length,
}
use klunok.Buffer.Cells.{NonZero, take-append_le, take_all}
use klunok.Buffer.Contents.{Holds, Reads-get_length, set_length-Holds}
use klunok.Buffer.Append.{concat_char-Holds, concat_char_ample}

unfoldable pub pow10 : ℕ → ℕ
pow10 zero = 1
pow10 (suc k) = pow10 k * 10

-- The digits of a number, from the highest, in `k + 1` places.
unfoldable pub padded : ℕ → ℕ → Text
padded zero n = (b'0' + n) ∷ []
padded (suc k) n = (b'0' + n / pow10 (suc k)) ∷ padded k (n % pow10 (suc k))

-- The least `k` from `j` on with `n < 10 ^ (k + 1)`.
unfoldable pub exponent : ℕ → ℕ → ℕ → ℕ
exponent zero j n = j
exponent (suc fuel) j n =
    let rest = exponent fuel (suc j) n in if ltb n (pow10 (suc j)) then j else rest

unfoldable pub decimal : ℕ → Text
decimal n = if n == 0 then b'0' ∷ [] else padded (exponent 20 0 n) n

-- What a text of digits stands for.
unfoldable pub value_from : ℕ → Text → ℕ
value_from acc [] = acc
value_from acc (c ∷ t) = value_from (acc * 10 + (c - b'0')) t

pow10_pos : (k : ℕ) → 0 < pow10 k
unfolding pow10
pow10_pos zero = omega arith
pow10_pos (suc k) = omega (arith, pow10_pos k)

exponent_lem :
    (fuel j n : ℕ)
    → pow10 j ≤ n
    → n < pow10 (j + fuel)
    → (pow10 (exponent fuel j n) ≤ n)
      × (n < pow10 (suc (exponent fuel j n)))
      × (exponent fuel j n < j + fuel)
unfolding exponent
exponent_lem zero j n lo hi = let e : j + 0 ≡ j = omega arith in absurd (omega (arith, ap pow10 e))
exponent_lem (suc fuel) j n lo hi = elim (Bool-cases (ltb n (pow10 (suc j)))) [
  | inl below ↦ rw below (lo, ground arith, omega arith)
  | inr above ↦
      let next : pow10 (suc j) ≤ n = ground arith in
      let e : j + suc fuel ≡ suc j + fuel = omega arith in
      let (a, b, c) = exponent_lem fuel (suc j) n next (rw (← e) hi) in rw above (a, b, omega arith)
]

find_power_lem :
    (fuel j n : ℕ)
    → n < size_mod
    → pow10 j ≤ n
    → n < pow10 (j + fuel)
    → find_power fuel n (pow10 j) ≡ pow10 (exponent fuel j n)
unfolding exponent find_power
find_power_lem zero j n small lo hi = refl
find_power_lem (suc fuel) j n small lo hi = elim (Bool-cases (ltb n (pow10 (suc j)))) [
  | inl below ↦
      let stop : leb (pow10 j) (n / 10) ≡ false = unfold pow10 in ground arith in rw (below, stop)
  | inr above ↦
      let go : leb (pow10 j) (n / 10) ≡ true = unfold pow10 in ground arith in
      let next : pow10 (suc j) ≤ n = ground arith in
      let step : pow10 j * 10 % size_mod ≡ pow10 (suc j) = unfold pow10 in ground arith in
      let e : j + suc fuel ≡ suc j + fuel = omega arith in
      rw (above, go, step) (find_power_lem fuel (suc j) n small next (rw (← e) hi))
]

-- Reading the digits gives the number back.
value_from-padded :
    (k n acc : ℕ) → n < pow10 (suc k) → value_from acc (padded k n) ≡ acc * pow10 (suc k) + n
unfolding value_from padded
value_from-padded zero n acc p = unfold pow10 in omega arith
value_from-padded (suc k) n acc p =
    let P = pow10 (suc k) in
    let low = mod-lt n (pow10_pos (suc k)) in
    let more : pow10 (suc (suc k)) ≡ P * 10 = unfold pow10 in refl in
    omega (
      arith,
      value_from-padded k (n % P) (acc * 10 + (b'0' + n / P - b'0')) low,
      div-add-mod n P,
      ap (λ (x : ℕ). x * P)
          (let e : acc * 10 + (b'0' + n / P - b'0') ≡ acc * 10 + n / P = omega arith in e),
      more,
      ap (λ (x : ℕ). acc * x) more,
    )

NonZero-padded : (k n : ℕ) → NonZero (padded k n)
unfolding padded
NonZero-padded zero n = (omega arith, tt)
NonZero-padded (suc k) n = (omega arith, NonZero-padded k (n % pow10 (suc k)))

length-padded : (k n : ℕ) → length (padded k n) ≡ suc k
unfolding padded
length-padded zero n = refl
length-padded (suc k) n = ap suc (length-padded k (n % pow10 (suc k)))

-- One digit after `t ++ u`: it is appended, or `t` is left once the digits are taken back.
digit-Holds :
    (t u : Text) (b : Buffer) (h : Host) (c : ℕ)
    → Holds (t ++ u) b
    → 0 < c
    → (length t + length u + 2) * 2 < size_mod
    → (ok (concat_char c b h).1 ≡ true → Holds (t ++ (u ++ c ∷ [])) (concat_char c b h).0)
      × (ok (concat_char c b h).1 ≡ false → Holds t (set_length (length t) (concat_char c b h).0))
digit-Holds t u b h c s p fits =
    let v = concat_char-Holds (t ++ u) b h c s p (omega (arith, length-append t u)) in
    (
      λ got. simp (got, append_assoc) at v,
      λ failed.
          rw (take-append_le (length t) t u (omega arith), take_all t) at
            (set_length-Holds (t ++ u) (concat_char c b h).0 (length t) (rw failed at v)
              (omega (arith, length-append t u))),
    )

concat_digits_zero :
    (fuel saved n : ℕ) (b : Buffer) (h : Host) → concat_digits fuel saved 0 n b h ≡ (b, h)
unfolding concat_digits
concat_digits_zero zero saved n b h = refl
concat_digits_zero (suc fuel) saved n b h = refl

-- The loop over the digits, from the text `t ++ u` with `length t` saved.
concat_digits_lem :
    (k fuel n : ℕ) (t u : Text) (b : Buffer) (h : Host)
    → k < fuel
    → Holds (t ++ u) b
    → (length t + length u + k + 2) * 2 < size_mod
    → Holds
        (if ok (concat_digits fuel (length t) (pow10 k) n b h).1 then t ++ (u ++ padded k n) else t)
        (concat_digits fuel (length t) (pow10 k) n b h).0
unfolding concat_digits padded
concat_digits_lem k zero n t u b h p s fits = absurd (omega arith)
concat_digits_lem zero (suc fuel) n t u b h p s fits =
    let c = b'0' + n / 1 in
    let (good, bad) = digit-Holds t u b h c s (omega arith) (omega arith) in
    let one : pow10 0 ≡ 1 = unfold pow10 in refl in
    let same : c ≡ b'0' + n = omega arith in
    elim (Bool-cases (ok (concat_char c b h).1)) [
      | inr failed ↦ rw (one, failed, failed) (bad failed)
      | inl got ↦
          rw
            (
              one,
              got,
              concat_digits_zero fuel (length t) (n % 1) (concat_char c b h).0
                  (concat_char c b h).1,
              got,
              ← same,
            )
            (good got)
    ]
concat_digits_lem (suc k) (suc fuel) n t u b h p s fits =
    let c = b'0' + n / pow10 (suc k) in
    let step = concat_char c b h in
    let (good, bad) = digit-Holds t u b h c s (omega arith) (omega arith) in
    let nonzero : (pow10 (suc k) == 0) ≡ false = ground (arith, pow10_pos (suc k)) in
    let next : pow10 (suc k) / 10 ≡ pow10 k = unfold pow10 in omega arith in
    elim (Bool-cases (ok step.1)) [
      | inr failed ↦ rw (nonzero, failed, failed) (bad failed)
      | inl got ↦
          rw (nonzero, got, next)
            (simp append_assoc at (
              concat_digits_lem k fuel (n % pow10 (suc k)) t (u ++ c ∷ []) step.0 step.1
                (omega arith) (good got) (omega (arith, length-append u (c ∷ [])))))
    ]

exponent-lt :
    (n : ℕ) → 0 < n → n < size_mod → (exponent 20 0 n < 20) × (n < pow10 (suc (exponent 20 0 n)))
exponent-lt n p small =
    let start : pow10 0 ≡ 1 = unfold pow10 in refl in
    let limit : pow10 (0 + 20) ≡ 10 ^ 20 = unfold pow10 in refl in
    let (a, b, c) = exponent_lem 20 0 n (omega (arith, start)) (omega (arith, limit)) in
    (omega arith, b)

find_power-exponent : (n : ℕ) → 0 < n → n < size_mod → find_power 20 n 1 ≡ pow10 (exponent 20 0 n)
find_power-exponent n p small =
    let start : pow10 0 ≡ 1 = unfold pow10 in refl in
    let limit : pow10 (0 + 20) ≡ 10 ^ 20 = unfold pow10 in refl in
    rw start at (find_power_lem 20 0 n small (omega (arith, start)) (omega (arith, limit)))

-- The digits that `concat_size` writes stand for the number, so no two numbers have one text.
pub value-decimal : (n : ℕ) → n < size_mod → value_from 0 (decimal n) ≡ n
unfolding decimal
value-decimal zero small = unfold value_from in refl
value-decimal (suc m) small =
    let n = suc m in
    let (_, top) = exponent-lt n (omega arith) small in
    rw suc-==-zero (value_from-padded (exponent 20 0 n) n 0 top ∙ omega arith)

pub NonZero-decimal : (n : ℕ) → NonZero (decimal n)
unfolding decimal
NonZero-decimal zero = (omega arith, tt)
NonZero-decimal (suc m) = rw suc-==-zero (NonZero-padded (exponent 20 0 (suc m)) (suc m))

abbrev pub IsDigits : Text → Type 0
IsDigits [] = Unit {0}
IsDigits (c ∷ t) = (b'0' ≤ c) × (c ≤ b'9') × IsDigits t

IsDigits-padded : (k n : ℕ) → n < pow10 (suc k) → IsDigits (padded k n)
unfolding padded
IsDigits-padded zero n p = unfold pow10 in (omega arith, omega (arith, p), tt)
IsDigits-padded (suc k) n p =
    let P = pow10 (suc k) in
    let ten : pow10 (suc (suc k)) ≡ P * 10 = unfold pow10 in refl in
    (
      omega arith,
      (let high : n / P < 10 =
            (div-lt_iff_lt-mul {x = n} {y = 10} (pow10_pos (suc k))).1 (omega (arith, p, ten)) in
          omega (arith, high)),
      IsDigits-padded k (n % P) (mod-lt n (pow10_pos (suc k))),
    )

pub IsDigits-decimal : (n : ℕ) → n < size_mod → IsDigits (decimal n)
unfolding decimal
IsDigits-decimal zero small = (omega arith, omega arith, tt)
IsDigits-decimal (suc m) small =
    rw suc-==-zero
      (IsDigits-padded (exponent 20 0 (suc m)) (suc m) (exponent-lt (suc m) (omega arith) small).1)

pub length-decimal : (n : ℕ) → n < size_mod → length (decimal n) ≤ 20
unfolding decimal
length-decimal zero small = omega arith
length-decimal (suc m) small = rw suc-==-zero (
    omega (
      arith,
      exponent-lt (suc m) (omega arith) small,
      length-padded (exponent 20 0 (suc m)) (suc m),
    ))

-- `concat_size` appends the decimal digits of the number, or fails and appends nothing: digits
-- that were written before the failure are taken back.
pub concat_size-Holds :
    (t : Text) (b : Buffer) (h : Host) (n : ℕ)
    → Holds t b
    → n < size_mod
    → (length t + 22) * 2 < size_mod
    → Holds (if ok (concat_size n b h).1 then t ++ decimal n else t) (concat_size n b h).0
unfolding concat_size decimal
concat_size-Holds t b h zero s small fits = elim (Bool-cases (ok h)) [
  | inr failed ↦ rw (failed, failed) s
  | inl fine ↦ rw fine (concat_char-Holds t b h b'0' s (omega arith) (omega arith))
]
concat_size-Holds t b h (suc m) s small fits = elim (Bool-cases (ok h)) [
  | inr failed ↦ rw (failed, failed) s
  | inl fine ↦
      let n = suc m in
      let (few, _) = exponent-lt n (omega arith) small in
      rw
        (
          fine,
          suc-==-zero m,
          Reads-get_length t b.view s.reads,
          find_power-exponent n (omega arith) small,
        )
        (concat_digits_lem (exponent 20 0 n) 21 n t [] b h (omega arith) (rw append-nil s)
          (omega arith))
]

pub concat_digits_ample :
    (fuel saved power n : ℕ) (b : Buffer) (h : Host)
    → h.fates ≡ []
    → ok h ≡ true
    → (concat_digits fuel saved power n b h).1 ≡ h
unfolding concat_digits
concat_digits_ample zero saved power n b h e fine = refl
concat_digits_ample (suc fuel) saved power n b h e fine =
    let step = concat_char (b'0' + n / power) b h in
    let same : step.1 ≡ h = concat_char_ample (b'0' + n / power) b h e in
    elim (Bool-cases (power == 0)) [
      | inl stop ↦ rw stop
      | inr more ↦
          rw (more, (let x : ok step.1 ≡ true = rw same fine in x), same)
            (concat_digits_ample fuel saved (power / 10) (n % power) step.0 h e fine)
    ]

pub concat_size_ample : (n : ℕ) (b : Buffer) (h : Host) → h.fates ≡ [] → (concat_size n b h).1 ≡ h
unfolding concat_size
concat_size_ample n b h e = elim (Bool-cases (ok h)) [
  | inr failed ↦ rw failed
  | inl fine ↦ ground (
    arith,
    concat_char_ample b'0' b h e,
    concat_digits_ample 21 (get_length b.view) (find_power 20 n 1) n b h e fine,
  )
]
