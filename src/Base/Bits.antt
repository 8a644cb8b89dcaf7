-- ===== src/Base/Bits.antt =====
-- `&` and `|` of numbers, read digit by digit and as arithmetic, at every width.
use Prim.Native.Nat.{ℕ, zero, suc, ◌+◌, ◌-◌, ◌*◌, ◌/◌, ◌%◌, ◌^◌, ◌≤◌, ◌<◌, min, max}
use Prim.Native.Nat.{bit_and, bit_or, digits, bit_and-bitwise, bit_or-bitwise}
use mathlib.Core.Path.{◌≡◌, refl, sym, ◌∙◌, ap}
use mathlib.Core.Logic.{◌≢◌}
use native.Mathlib.Nat.{
  pow-suc, one-le-pow, div-div-eq-div-mul, mod-lt, mod-eq_of_lt, div-add-mod,
  add-mul-mod_self_right, div-one, pow-le-pow_right,
}
use openeuler_ummu.Base.Tests.{ltb, if◌then◌else◌}
use native.Mathlib.Omega.{arith}

module _ (z : ℕ → ℕ) (op : ℕ → ℕ → ℕ) where
  -- Fuel beyond the first number makes no difference.
  digits_extra :
      (a : ℕ) (n : ℕ) (m : ℕ) (b : ℕ) → a ≤ n → a ≤ m → digits z op n a b ≡ digits z op m a b
  digits_extra zero zero zero b h k = refl
  digits_extra zero zero (suc m) b h k = refl
  digits_extra zero (suc n) zero b h k = refl
  digits_extra zero (suc n) (suc m) b h k = refl
  digits_extra (suc a) zero m b h k = absurd (omega arith)
  digits_extra (suc a) (suc n) zero b h k = absurd (omega arith)
  digits_extra (suc a) (suc n) (suc m) b h k =
      ap (λ (t : ℕ). t * 2 + op (suc a % 2) (b % 2))
        (digits_extra (suc a / 2) n m (b / 2) (omega arith) (omega arith))

-- One equation for the lowest digit of each operation.
bit_and_digit : (a b : ℕ) → min (a % 2) (b % 2) + 2 * bit_and (a / 2) (b / 2) ≡ bit_and a b
bit_and_digit zero b = simp bit_and-bitwise (omega arith)
bit_and_digit (suc a) b = simp bit_and-bitwise (
    omega (
      arith,
      digits_extra (λ y. 0) min (suc a / 2) a (suc a / 2) (b / 2) (omega arith) (omega arith),
    ))

pub bit_or_digit : (a b : ℕ) → max (a % 2) (b % 2) + 2 * bit_or (a / 2) (b / 2) ≡ bit_or a b
bit_or_digit zero b = simp bit_or-bitwise (omega arith)
bit_or_digit (suc a) b = simp bit_or-bitwise (
    omega (
      arith,
      digits_extra (λ y. y) max (suc a / 2) a (suc a / 2) (b / 2) (omega arith) (omega arith),
    ))

-- Bit `i` of a number, 0 or 1.
abbrev pub get_bit : ℕ → ℕ → ℕ
get_bit x zero = x % 2
get_bit x (suc i) = get_bit (x / 2) i

pub get_bit-le-one : (x i : ℕ) → get_bit x i ≤ 1
get_bit-le-one x zero = omega arith
get_bit-le-one x (suc i) = get_bit-le-one (x / 2) i

pub zero-get_bit : (i : ℕ) → get_bit 0 i ≡ 0
zero-get_bit zero = refl
zero-get_bit (suc i) = zero-get_bit i

pub get_bit-bit_and : (a b i : ℕ) → get_bit (bit_and a b) i ≡ min (get_bit a i) (get_bit b i)
get_bit-bit_and a b zero = omega (arith, bit_and_digit a b)
get_bit-bit_and a b (suc i) =
    ap (λ t. get_bit t i) (omega (arith, bit_and_digit a b)) ∙ get_bit-bit_and (a / 2) (b / 2) i

pub get_bit-bit_or : (a b i : ℕ) → get_bit (bit_or a b) i ≡ max (get_bit a i) (get_bit b i)
get_bit-bit_or a b zero = omega (arith, bit_or_digit a b)
get_bit-bit_or a b (suc i) =
    ap (λ t. get_bit t i) (omega (arith, bit_or_digit a b)) ∙ get_bit-bit_or (a / 2) (b / 2) i

pub get_bit-pow_self : (k : ℕ) → get_bit (2 ^ k) k ≡ 1
get_bit-pow_self zero = refl
get_bit-pow_self (suc k) = ap (λ t. get_bit t k) (omega (arith, pow-suc 2 k)) ∙ get_bit-pow_self k

pub get_bit-pow_ne : (k i : ℕ) → k ≢ i → get_bit (2 ^ k) i ≡ 0
get_bit-pow_ne zero zero h = absurd (h refl)
get_bit-pow_ne zero (suc i) h = zero-get_bit i
get_bit-pow_ne (suc k) zero h = omega (arith, pow-suc 2 k)
get_bit-pow_ne (suc k) (suc i) h =
    ap (λ t. get_bit t i) (omega (arith, pow-suc 2 k)) ∙ get_bit-pow_ne k i (λ e. h (ap suc e))

-- `~x` in a word of `w` bits.
pub get_bit-complement :
    (w x i : ℕ) → x < 2 ^ w → i < w → get_bit (2 ^ w - 1 - x) i + get_bit x i ≡ 1
get_bit-complement zero x i hx hi = elim hi [ ]
get_bit-complement (suc w) x zero hx hi = omega (arith, pow-suc 2 w)
get_bit-complement (suc w) x (suc i) hx hi =
    ap (λ t. get_bit t i + get_bit (x / 2) i) (omega (arith, pow-suc 2 w))
    ∙ get_bit-complement w (x / 2) i (omega (arith, pow-suc 2 w)) (omega arith)

-- Both at once, by recursion on a bound of the number.
zero_below : (bound x : ℕ) → x ≤ bound → (bit_and x 0 ≡ 0) × (bit_or x 0 ≡ x)
zero_below zero x h =
    let e : x ≡ 0 = omega arith in
    (ap (λ (t : ℕ). bit_and t 0) e, omega (arith, ap (λ (t : ℕ). bit_or t 0) e, bit_or-bitwise 0 0))
zero_below (suc bound) x h =
    let below = zero_below bound (x / 2) (omega arith) in
    (omega (arith, bit_and_digit x 0, below.0), omega (arith, bit_or_digit x 0, below.1))

pub bit_and-zero : (x : ℕ) → bit_and x 0 ≡ 0
bit_and-zero x = (zero_below x x (omega arith)).0

pub bit_or-zero : (x : ℕ) → bit_or x 0 ≡ x
bit_or-zero x = (zero_below x x (omega arith)).1

-- The remainder by `2 ^ (k + 1)` in terms of the lowest digit.
mod_two_pow_suc : (k a : ℕ) → a % 2 ^ suc k ≡ (a / 2) % 2 ^ k * 2 + a % 2
mod_two_pow_suc k a =
    let h : 2 ^ suc k ≡ 2 * 2 ^ k = omega (arith, pow-suc 2 k) in
    let lt : a / 2 % 2 ^ k < 2 ^ k = mod-lt (a / 2) (one-le-pow k 2 (omega arith)) in
    let e : a ≡ a / 2 % 2 ^ k * 2 + a % 2 + a / 2 / 2 ^ k * (2 * 2 ^ k) =
      omega (arith, div-add-mod (a / 2) (2 ^ k)) in
    rw h (ap (λ t. t % (2 * 2 ^ k)) e ∙ add-mul-mod_self_right _ _ _ ∙ mod-eq_of_lt (omega arith))

-- A mask of `k` low ones is the remainder by `2 ^ k`.
pub bit_and_mask : (k a : ℕ) → bit_and a (2 ^ k - 1) ≡ a % 2 ^ k
bit_and_mask zero a = omega (arith, bit_and-zero a)
bit_and_mask (suc k) a = ground (
  arith,
  bit_and_digit a (2 ^ suc k - 1),
  pow-suc 2 k,
  one-le-pow k 2,
  mod_two_pow_suc k a,
  bit_and_mask k (a / 2),
)

-- A mask of one bit.
pub bit_and_pow : (k a : ℕ) → bit_and a (2 ^ k) ≡ get_bit a k * 2 ^ k
bit_and_pow zero a = omega (arith, bit_and_digit a 1, bit_and-zero (a / 2))
bit_and_pow (suc k) a = omega (
  arith,
  bit_and_digit a (2 ^ suc k),
  ap (λ (t : ℕ). bit_and (a / 2) t) half,
  bit_and_pow k (a / 2),
  pow-suc 2 k,
  ap (λ (t : ℕ). get_bit (a / 2) k * t) (pow-suc 2 k),
)
  where
    half : 2 ^ suc k / 2 ≡ 2 ^ k
    half = omega (arith, pow-suc 2 k)

-- Fields that do not overlap: `|` is `+`.
pub bit_or_fields : (k q r : ℕ) → r < 2 ^ k → bit_or (q * 2 ^ k) r ≡ q * 2 ^ k + r
bit_or_fields zero q r h = ground (arith, bit_or-zero q)
bit_or_fields (suc k) q r h = ground (
  arith,
  bit_or_digit (q * 2 ^ suc k) r,
  ap (λ (t : ℕ). q * t) (pow-suc 2 k),
  bit_or_fields k q (r / 2),
  pow-suc 2 k,
)

-- Bit `i` by division.
pub get_bit-eq-div : (x i : ℕ) → get_bit x i ≡ x / 2 ^ i % 2
get_bit-eq-div x zero = omega arith
get_bit-eq-div x (suc i) =
    get_bit-eq-div (x / 2) i
    ∙ ap (λ t. t % 2)
        (div-div-eq-div-mul x 2 (2 ^ i) ∙ ap (λ t. x / t) (omega (arith, pow-suc 2 i)))

pub bit_or-lt : (w a b : ℕ) → a < 2 ^ w → b < 2 ^ w → bit_or a b < 2 ^ w
bit_or-lt zero zero b ha hb = omega (arith, bit_or-bitwise 0 b)
bit_or-lt zero (suc a) b ha hb = absurd (omega arith)
bit_or-lt (suc w) a b ha hb = omega (
  arith,
  bit_or_digit a b,
  pow-suc 2 w,
  bit_or-lt w (a / 2) (b / 2) (omega (arith, pow-suc 2 w)) (omega (arith, pow-suc 2 w)),
)

pub bit_and-lt : (w a b : ℕ) → a < 2 ^ w → bit_and a b < 2 ^ w
bit_and-lt zero zero b ha = omega (arith, bit_and-bitwise 0 b)
bit_and-lt zero (suc a) b ha = absurd (omega arith)
bit_and-lt (suc w) a b ha = omega (
  arith,
  bit_and_digit a b,
  pow-suc 2 w,
  bit_and-lt w (a / 2) (b / 2) (omega (arith, pow-suc 2 w)),
)

pub pow-lt-pow : {i j : ℕ} → i < j → 2 ^ i < 2 ^ j
pow-lt-pow {i} {j} h = omega (
  arith,
  pow-le-pow_right {n = 2} (omega arith) {i = suc i} {j = j} h,
  pow-suc 2 i,
  one-le-pow i 2,
)

-- The bits of `2 ^ m - 1`.
pub get_bit-mask : (m j : ℕ) → get_bit (2 ^ m - 1) j ≡ (if ltb j m then 1 else 0)
get_bit-mask zero j = ground (arith, zero-get_bit j)
get_bit-mask (suc m) zero = ground (arith, pow-suc 2 m, one-le-pow m 2)
get_bit-mask (suc m) (suc j) =
    let e : (2 ^ suc m - 1) / 2 ≡ 2 ^ m - 1 =
      omega (arith, pow-suc 2 m, one-le-pow m 2 (omega arith)) in
    ap (λ t. get_bit t j) e ∙ get_bit-mask m j ∙ ground arith

-- A mask whose lowest `l` bits are zero.
pub bit_and_high : (l a m : ℕ) → bit_and a (m * 2 ^ l) ≡ bit_and (a / 2 ^ l) m * 2 ^ l
bit_and_high zero a m =
    ap (λ t. bit_and a t) (omega arith) ∙ ap (λ t. bit_and t m) (sym (div-one a)) ∙ omega arith
bit_and_high (suc l) a m =
    let e : m * 2 ^ suc l / 2 ≡ m * 2 ^ l = omega (arith, ap (λ (t : ℕ). m * t) (pow-suc 2 l)) in
    let z : m * 2 ^ suc l % 2 ≡ 0 = omega (arith, ap (λ (t : ℕ). m * t) (pow-suc 2 l)) in
    let d : a / 2 / 2 ^ l ≡ a / 2 ^ suc l =
      div-div-eq-div-mul a 2 (2 ^ l) ∙ ap (λ t. a / t) (omega (arith, pow-suc 2 l)) in
    omega (
      arith,
      bit_and_digit a (m * 2 ^ suc l),
      ap (λ (t : ℕ). bit_and (a / 2) t) e,
      z,
      bit_and_high l (a / 2) m,
      ap (λ (t : ℕ). bit_and t m * 2 ^ l) d,
      ap (λ (t : ℕ). bit_and (a / 2 ^ suc l) m * t) (pow-suc 2 l),
    )

pub pow-add : (a b : ℕ) → 2 ^ (a + b) ≡ 2 ^ a * 2 ^ b
pow-add a zero = let e : a + zero ≡ a = omega arith in ap (λ (t : ℕ). 2 ^ t) e ∙ omega arith
pow-add a (suc b) =
    let e : a + suc b ≡ suc (a + b) = omega arith in
    ap (λ (t : ℕ). 2 ^ t) e ∙ pow-suc 2 (a + b) ∙ grind (arith, pow-add a b, pow-suc 2 b)
