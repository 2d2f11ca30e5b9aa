-- ===== src/Common/Bytes.antt =====
-- Byte strings as lists of numbers, and the big-endian encodings of `uN::to_be_bytes`.
use Prim.Native.Nat.{ℕ, zero, suc, ◌+◌, ◌*◌, ◌/◌, ◌%◌, ◌^◌, ◌<◌}
use mathlib.Core.Path.{◌≡◌, refl, ap, ◌∙◌}
use mathlib.Core.List.{List, [], ◌∷◌, reverse, reverse-reverse, reverse-cons}
use native.Mathlib.Omega.{arith}
use native.Mathlib.Nat.{pow-suc, pow-zero}
use morsh.Common.Lists.{length, length-reverse, All, All-append}

abbrev pub IsByte : ℕ → Type 0
IsByte b = b < 256

-- Least significant byte first.
le_bytes : ℕ → ℕ → List ℕ
le_bytes zero v = []
le_bytes (suc n) v = (v % 256) ∷ le_bytes n (v / 256)

from_le : List ℕ → ℕ
from_le [] = 0
from_le (b ∷ bs) = b + 256 * from_le bs

-- `to_be_bytes` of an integer of `n` bytes, and `from_be_bytes`.
unfoldable pub to_be : ℕ → ℕ → List ℕ
unfolding le_bytes
to_be n v = reverse (le_bytes n v)

unfoldable pub from_be : List ℕ → ℕ
unfolding from_le
from_be bs = from_le (reverse bs)

length-le_bytes : (n v : ℕ) → length (le_bytes n v) ≡ n
unfolding le_bytes
length-le_bytes zero v = refl
length-le_bytes (suc n) v = ap suc (length-le_bytes n (v / 256))

pub length-to_be : (n v : ℕ) → length (to_be n v) ≡ n
unfolding to_be
length-to_be n v = length-reverse (le_bytes n v) ∙ length-le_bytes n v

le_bytes-IsByte : (n v : ℕ) → All IsByte (le_bytes n v)
unfolding le_bytes
le_bytes-IsByte zero v = tt
le_bytes-IsByte (suc n) v = (omega arith, le_bytes-IsByte n (v / 256))

All-reverse : (bs : List ℕ) → All IsByte bs → All IsByte (reverse bs)
All-reverse [] h = tt
All-reverse (b ∷ bs) h =
    rw (reverse-cons b bs) (All-append IsByte (reverse bs) (b ∷ []) (All-reverse bs h.1) (h.0, tt))

pub to_be-IsByte : (n v : ℕ) → All IsByte (to_be n v)
unfolding to_be
to_be-IsByte n v = All-reverse (le_bytes n v) (le_bytes-IsByte n v)

from_le-le_bytes : (n v : ℕ) → v < 256 ^ n → from_le (le_bytes n v) ≡ v
unfolding le_bytes from_le
from_le-le_bytes zero v h = omega (arith, pow-zero 256)
from_le-le_bytes (suc n) v h =
    omega (arith, from_le-le_bytes n (v / 256) (omega (arith, pow-suc 256 n)))

le_bytes-from_le : (bs : List ℕ) → All IsByte bs → le_bytes (length bs) (from_le bs) ≡ bs
unfolding le_bytes from_le
le_bytes-from_le [] h = refl
le_bytes-from_le (b ∷ bs) h =
    let low : (b + 256 * from_le bs) % 256 ≡ b = omega arith in
    let high : (b + 256 * from_le bs) / 256 ≡ from_le bs = omega arith in
    rw (low, high, le_bytes-from_le bs h.1)

from_le-lt : (bs : List ℕ) → All IsByte bs → from_le bs < 256 ^ length bs
unfolding from_le
from_le-lt [] h = omega (arith, pow-zero 256)
from_le-lt (b ∷ bs) h = omega (arith, from_le-lt bs h.1, pow-suc 256 (length bs))

-- An integer that fits is read back.
pub from_be-to_be : (n v : ℕ) → v < 256 ^ n → from_be (to_be n v) ≡ v
unfolding from_be to_be
from_be-to_be n v h = rw reverse-reverse (from_le-le_bytes n v h)

-- Bytes that are read are written back.
pub to_be-from_be :
    (n : ℕ) (bs : List ℕ) → length bs ≡ n → All IsByte bs → to_be n (from_be bs) ≡ bs
unfolding from_be to_be
to_be-from_be n bs e h =
    rw (← e, ← length-reverse bs, le_bytes-from_le (reverse bs) (All-reverse bs h))
      (reverse-reverse bs)

pub from_be-lt : (n : ℕ) (bs : List ℕ) → length bs ≡ n → All IsByte bs → from_be bs < 256 ^ n
unfolding from_be
from_be-lt n bs e h = rw (← e, ← length-reverse bs) (from_le-lt (reverse bs) (All-reverse bs h))
