-- ===== src/Message/Streams.antt =====
-- Chains of `<<` and `>>` on one packet, as the handlers write them: a list of values for the first,
-- and for the second the list of the variables that are read into.
use pserver.Prelude.{ℕ, ◌^◌, ◌<◌, ◌≡◌, List, [], ◌∷◌, ◌++◌, Option, some, length, ◌>>=◌}
use pserver.Bytes.{le_bytes}
use pserver.Message.{Message, put_int, get_int, put_string, get_string}

-- An integer of `w` bytes, or a string.
pub data Field : Type 0 where
  int : ℕ → ℕ → Field
  text : List ℕ → Field

unfoldable pub put_field : Field → Message → Option Message
put_field (int w v) m = put_int w v m
put_field (text t) m = put_string t m

unfoldable pub put_fields : List Field → Message → Option Message
put_fields [] m = some m
put_fields (f ∷ fs) m = do m' ← put_field f m; put_fields fs m'

-- The argument is the variable with what it held before.
unfoldable pub get_field : Field → Message → Message × Field
get_field (int w old) m = let (m', v) = get_int w old m in (m', int w v)
get_field (text old) m = let (m', t) = get_string old m in (m', text t)

unfoldable pub get_fields : List Field → Message → Message × List Field
get_fields [] m = (m, [])
get_fields (f ∷ fs) m =
    let (m', v) = get_field f m in let (m'', vs) = get_fields fs m' in (m'', v ∷ vs)

-- What a field takes on the wire.
unfoldable pub encode : Field → List ℕ
encode (int w v) = le_bytes w v
encode (text t) = le_bytes 2 (length t) ++ t

unfoldable pub encode_all : List Field → List ℕ
encode_all [] = []
encode_all (f ∷ fs) = encode f ++ encode_all fs

-- The value lies in its type.
abbrev pub Fits : Field → Type 0
Fits (int w v) = v < 256 ^ w
Fits (text t) = length t < 65536

-- A variable of the same type as the value; a string variable is read into empty.
abbrev pub Reads : Field → Field → Type 0
Reads (int w v) (int w' old) = w' ≡ w
Reads (text t) (text old) = old ≡ []
Reads _ _ = ⊥

abbrev pub AllReads : List Field → List Field → Type 0
AllReads [] [] = Unit {0}
AllReads (f ∷ fs) (g ∷ gs) = Reads f g × AllReads fs gs
AllReads _ _ = ⊥
