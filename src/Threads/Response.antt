-- ===== src/Threads/Response.antt =====
-- net_packdeal.cpp and server.cpp: what the server owes to a packet, as a function of its bytes.
use pserver.Prelude.{
  ℕ, ◌+◌, ◌*◌, ◌≡◌, refl, sym, ap, ◌∙◌, List, [], ◌∷◌, ◌++◌, map, append_assoc, some, arith, ◌==◌,
  if◌then◌else◌,
}
use mathlib.Core.List.{flatten}
use pserver.Bytes.{peek, peek_u16}
use pserver.Message.{get_type}
use pserver.Message.Padding.{receiving}
use pserver.PackDeal.{ptl_test}
use pserver.PackDeal.Laws.{answer_packet}
use pserver.Server.Reassembly.{IsFrame}
use pserver.Server.{Entry, received, type_error}

-- The type field of a packet.
abbrev pub type_of : List ℕ → ℕ
type_of (a ∷ b ∷ c ∷ d ∷ rest) = c + 256 * d
type_of _ = 0

-- What the peer gets for a packet, and the line that the log gets.
abbrev pub response : List ℕ → List ℕ
response f = if type_of f == ptl_test then answer_packet else []

abbrev pub logged : ℕ → List ℕ → List Entry
logged sock f =
    if type_of f == ptl_test then received sock ∷ [] else type_error sock (type_of f) ∷ []

pub get_type-receiving : (f : List ℕ) → IsFrame f → get_type (receiving f) ≡ some (type_of f)
unfolding get_type peek_u16 peek
get_type-receiving [] v = absurd (omega (arith, v.header))
get_type-receiving (a ∷ []) v = absurd (omega (arith, v.header))
get_type-receiving (a ∷ b ∷ []) v = absurd (omega (arith, v.header))
get_type-receiving (a ∷ b ∷ c ∷ []) v = absurd (omega (arith, v.header))
get_type-receiving (a ∷ b ∷ c ∷ d ∷ rest) v = refl

-- What a list of packets comes to, taken apart.
pub flatten-map-append :
    {A B : Type 0} (f : A → List B) (xs ys : List A)
    → flatten (map f (xs ++ ys)) ≡ flatten (map f xs) ++ flatten (map f ys)
unfolding flatten
flatten-map-append f [] ys = refl
flatten-map-append f (x ∷ xs) ys =
    ap (◌++◌ (f x)) (flatten-map-append f xs ys)
    ∙ sym (append_assoc (f x) (flatten (map f xs)) (flatten (map f ys)))

pub grown :
    {A : Type 0} (xs ys first rest zs : List A)
    → ys ≡ xs ++ first
    → zs ≡ ys ++ rest
    → zs ≡ xs ++ (first ++ rest)
grown xs ys first rest zs e f = f ∙ (ap (λ l. l ++ rest) e ∙ append_assoc xs first rest)
