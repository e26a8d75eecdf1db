-- ===== src/Message/Padding.antt =====
-- net_message.cpp: the buffer of a packet of which the bytes `h` have arrived, and how long it is.
use pserver.Prelude.{
  ℕ, zero, suc, ◌+◌, ◌-◌, ◌*◌, ◌≤◌, ◌<◌, ◌≡◌, refl, ap, ◌∙◌, ◌⊎◌, inl, inr, List, [], ◌∷◌, ◌++◌,
  append_assoc, some, arith, length, drop, replicate, take-append_length, length-append,
  length-replicate,
}
use pserver.Bytes.{poke, resize}
use pserver.Message.{Message}

-- `h` with zeros up to `n` bytes.
abbrev pub pad : ℕ → List ℕ → List ℕ
pad n h = h ++ replicate (n - length h) 0

-- How long the packet that begins with `h` is, as far as `h` tells.
abbrev pub target : List ℕ → ℕ
target (a ∷ b ∷ c ∷ d ∷ rest) = a + 256 * b + 4
target _ = 4

-- The length field, as far as it is there, is not one of the four for which `GetLength` wraps.
abbrev pub Narrow : List ℕ → Type 0
Narrow (a ∷ b ∷ rest) = (a < 256) × (a + 256 * b < 65532)
Narrow (a ∷ []) = a < 256
Narrow [] = Unit {0}

-- The packet object of the receive table.
abbrev pub receiving : List ℕ → Message
receiving h = record {
  read_pos = 4;
  buffer = pad (target h) h;
  recv_len = length h;
  send_begin = 0;
}

zeros : ℕ → List ℕ
zeros n = replicate n 0

length-pad : (n : ℕ) (h : List ℕ) → length h ≤ n → length (pad n h) ≡ n
length-pad n h le = omega (arith, length-append h (replicate (n - length h) 0), length-zeros)
  where
    length-zeros : length (replicate {A = ℕ} (n - length h) 0) ≡ n - length h
    length-zeros = length-replicate (n - length h) 0

drop-zeros : (m n : ℕ) → drop m (zeros n) ≡ zeros (n - m)
unfolding zeros
drop-zeros zero n = ap zeros (omega arith)
drop-zeros (suc m) zero = ap zeros {x = 0} {y = 0 - suc m} (omega arith)
drop-zeros (suc m) (suc n) = drop-zeros m n ∙ ap zeros (omega arith)

drop-append_add : (h xs : List ℕ) (m : ℕ) → drop (length h + m) (h ++ xs) ≡ drop m xs
drop-append_add [] xs m = ap (λ k. drop k xs) (omega arith)
drop-append_add (x ∷ h) xs m =
    let e : suc (length h) + m ≡ suc (length h + m) = omega arith in rw e (drop-append_add h xs m)

pub poke-pad :
    (n : ℕ) (h bytes : List ℕ)
    → length h + length bytes ≤ n
    → poke (pad n h) (length h) bytes ≡ some (pad n (h ++ bytes))
unfolding poke zeros
poke-pad n h bytes le =
    let k = n - length h in
    let front = take-append_length h (zeros k) in
    let back = drop-append_add h (zeros k) (length bytes) ∙ drop-zeros (length bytes) k in
    let left : k - length bytes ≡ n - length (h ++ bytes) = omega (arith, length-append h bytes) in
    ground (
      arith,
      length-pad n h (omega arith),
      front,
      back,
      ap zeros left,
      append_assoc h bytes (zeros (n - length (h ++ bytes))),
    )

pub resize-pad : (n : ℕ) (h : List ℕ) → length h ≤ n → resize n h ≡ pad n h
unfolding resize zeros
resize-pad zero [] le = refl
resize-pad zero (x ∷ h) le = absurd (omega arith)
resize-pad (suc n) [] le =
    ap (◌∷◌ 0) (resize-pad n [] (omega arith))
    ∙ ap zeros {x = suc (n - 0)} {y = suc n - 0} (omega arith)
resize-pad (suc n) (x ∷ h) le =
    ap (◌∷◌ x) (resize-pad n h (omega arith)) ∙ ap (λ k. x ∷ (h ++ zeros k)) (omega arith)

pub target_cases : (h : List ℕ) → ((length h < 4) × (target h ≡ 4)) ⊎ (4 ≤ length h)
target_cases [] = inl (omega arith, refl)
target_cases (a ∷ []) = inl (omega arith, refl)
target_cases (a ∷ b ∷ []) = inl (omega arith, refl)
target_cases (a ∷ b ∷ c ∷ []) = inl (omega arith, refl)
target_cases (a ∷ b ∷ c ∷ d ∷ rest) = inr (omega arith)

pub four-le-target : (h : List ℕ) → 4 ≤ target h
four-le-target [] = omega arith
four-le-target (a ∷ []) = omega arith
four-le-target (a ∷ b ∷ []) = omega arith
four-le-target (a ∷ b ∷ c ∷ []) = omega arith
four-le-target (a ∷ b ∷ c ∷ d ∷ rest) = omega arith

pub target-append : (h bytes : List ℕ) → 4 ≤ length h → target (h ++ bytes) ≡ target h
target-append [] bytes le = absurd (omega arith)
target-append (a ∷ []) bytes le = absurd (omega arith)
target-append (a ∷ b ∷ []) bytes le = absurd (omega arith)
target-append (a ∷ b ∷ c ∷ []) bytes le = absurd (omega arith)
target-append (a ∷ b ∷ c ∷ d ∷ h) bytes le = refl

-- Bytes that the packet has room for leave it within its length.
pub length-le-target :
    (h bytes : List ℕ)
    → length h + length bytes ≤ target h
    → length (h ++ bytes) ≤ target (h ++ bytes)
length-le-target h bytes le = elim (target_cases h) [
  | inl (short, t) ↦ omega (arith, length-append h bytes, four-le-target (h ++ bytes))
  | inr long ↦ omega (arith, length-append h bytes, target-append h bytes long)
]

pub Narrow-prefix : (h bytes : List ℕ) → Narrow (h ++ bytes) → Narrow h
Narrow-prefix [] bytes w = tt
Narrow-prefix (a ∷ []) [] w = w
Narrow-prefix (a ∷ []) (b ∷ bytes) w = w.0
Narrow-prefix (a ∷ b ∷ h) bytes w = w

pub target-lt : (h : List ℕ) → Narrow h → target h < 65536
target-lt [] w = omega arith
target-lt (a ∷ []) w = omega arith
target-lt (a ∷ b ∷ []) w = omega arith
target-lt (a ∷ b ∷ c ∷ []) w = omega arith
target-lt (a ∷ b ∷ c ∷ d ∷ rest) w = omega arith
