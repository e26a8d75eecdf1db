-- ===== src/Bytes.antt =====
-- Memory as the code sees it: the characters of a `std::string` behind `c_str()`, and the integers
-- that it reads and writes there through casts. A byte is a number below 256, and the machine is
-- little endian.
use native.Mathlib.Nat.{pow-suc}
use pserver.Prelude.{
  ℕ, zero, suc, ◌+◌, ◌*◌, ◌/◌, ◌%◌, ◌^◌, ◌≤◌, ◌<◌, ◌≡◌, refl, ap, List, [], ◌∷◌, ◌++◌, Option, none,
  some, arith, leb, if◌then◌else◌, length, take, drop, All, ◌>>=◌,
}

abbrev pub IsByte : ℕ → Type 0
IsByte b = b < 256

-- `uint16`: the conversions to it wrap.
abbrev pub u16_mod : ℕ
u16_mod = 65536

abbrev pub IsU16 : ℕ → Type 0
IsU16 n = n < u16_mod

abbrev pub to_u16 : ℕ → ℕ
to_u16 n = n % u16_mod

-- The bytes of a `w`-byte integer, and the integer that such bytes stand for.
unfoldable pub le_bytes : ℕ → ℕ → List ℕ
le_bytes zero x = []
le_bytes (suc w) x = x % 256 ∷ le_bytes w (x / 256)

unfoldable pub le_value : List ℕ → ℕ
le_value [] = 0
le_value (b ∷ bs) = b + 256 * le_value bs

-- `c_str()[i]`: the terminator stands behind the last character, and nothing is known further on.
unfoldable pub peek : List ℕ → ℕ → Option ℕ
peek [] zero = some 0
peek [] (suc i) = none
peek (b ∷ bs) zero = some b
peek (b ∷ bs) (suc i) = peek bs i

-- `*(uint16*)(c_str() + i)`
unfoldable pub peek_u16 : List ℕ → ℕ → Option ℕ
peek_u16 bs i = do lo ← peek bs i; hi ← peek bs (suc i); some (lo + 256 * hi)

-- `memcpy(c_str() + i, src, length(src))` within the characters; past them it is a fault.
unfoldable pub poke : List ℕ → ℕ → List ℕ → Option (List ℕ)
poke bs i src =
    if leb (i + length src) (length bs)
    then some (take i bs ++ (src ++ drop (i + length src) bs))
    else none

-- `*(uint16*)(c_str() + i) = v`
abbrev pub poke_u16 : List ℕ → ℕ → ℕ → Option (List ℕ)
poke_u16 bs i v = poke bs i (le_bytes 2 v)

-- `std::string::resize`
unfoldable pub resize : ℕ → List ℕ → List ℕ
resize zero bs = []
resize (suc n) [] = 0 ∷ resize n []
resize (suc n) (b ∷ bs) = b ∷ resize n bs

pub length-le_bytes : (w x : ℕ) → length (le_bytes w x) ≡ w
unfolding le_bytes
length-le_bytes zero x = refl
length-le_bytes (suc w) x = ap suc (length-le_bytes w (x / 256))

pub le_bytes-IsByte : (w x : ℕ) → All IsByte (le_bytes w x)
unfolding le_bytes
le_bytes-IsByte zero x = tt
le_bytes-IsByte (suc w) x = (omega arith, le_bytes-IsByte w (x / 256))

pub le_value-le_bytes : (w x : ℕ) → x < 256 ^ w → le_value (le_bytes w x) ≡ x
unfolding le_bytes le_value
le_value-le_bytes zero x h = omega arith
le_value-le_bytes (suc w) x h =
    let p = pow-suc 256 w in
    let q : x / 256 < 256 ^ w = omega arith in omega (arith, le_value-le_bytes w (x / 256) q)

pub length-resize : (n : ℕ) (bs : List ℕ) → length (resize n bs) ≡ n
unfolding resize
length-resize zero bs = refl
length-resize (suc n) [] = ap suc (length-resize n [])
length-resize (suc n) (b ∷ bs) = ap suc (length-resize n bs)

pub peek_u16-head : (a b : ℕ) (bs : List ℕ) → peek_u16 (a ∷ b ∷ bs) 0 ≡ some (a + 256 * b)
unfolding peek_u16 peek
peek_u16-head a b bs = refl

-- A buffer that holds a header, taken apart.
pub head_cases :
    (bs : List ℕ) → 4 ≤ length bs → (a b c d : ℕ) × (rest : List ℕ) × (bs ≡ a ∷ b ∷ c ∷ d ∷ rest)
head_cases [] h = absurd (omega arith)
head_cases (a ∷ []) h = absurd (omega arith)
head_cases (a ∷ b ∷ []) h = absurd (omega arith)
head_cases (a ∷ b ∷ c ∷ []) h = absurd (omega arith)
head_cases (a ∷ b ∷ c ∷ d ∷ rest) h = (a, b, c, d, rest, refl)
