-- ===== src/Message/Fields.antt =====
-- The header of a packet: what the writing operations of net_message.cpp leave in the buffer.
use pserver.Prelude.{
  ℕ, suc, ◌+◌, ◌*◌, ◌%◌, ◌/◌, ◌≤◌, ◌≡◌, refl, ap, List, [], ◌∷◌, ◌++◌, some, arith, length,
}
use pserver.Bytes.{peek, peek_u16, poke, le_bytes, resize}
use pserver.Message.{Message, get_length, set_length, length_field, new, set_type, get_type, write}

-- A packet with the type bytes `c` and `d` as it stands on the wire.
abbrev pub wire : ℕ → ℕ → List ℕ → List ℕ
wire c d body =
    let field = length_field (suc (suc (suc (suc (length body))))) in
    field % 256 ∷ field / 256 % 256 ∷ c ∷ d ∷ body

-- The buffer is a whole packet with its length filled in.
abbrev pub IsWire : List ℕ → Type 0
IsWire bs = (c d : ℕ) × (body : List ℕ) × (bs ≡ wire c d body)

pub set_length_lem :
    (m : Message) (a b c d : ℕ) (body : List ℕ)
    → m.buffer ≡ a ∷ b ∷ c ∷ d ∷ body
    → set_length m ≡ some (record m { buffer = wire c d body })
unfolding set_length poke le_bytes
set_length_lem m a b c d body e = ground arith

pub new_lem :
    new ≡ some (record { read_pos = 4; buffer = wire 0 0 []; recv_len = 0; send_begin = 0 })
unfolding new set_length poke le_bytes resize
new_lem = refl

pub write_lem :
    (m : Message) (bytes : List ℕ) (a b c d : ℕ) (body : List ℕ)
    → m.buffer ≡ a ∷ b ∷ c ∷ d ∷ body
    → write bytes m ≡ some (record m { buffer = wire c d (body ++ bytes) })
unfolding write
write_lem m bytes a b c d body e = set_length_lem _ a b c d (body ++ bytes) (rw e)

pub set_type_lem :
    (m : Message) (type c d : ℕ) (body : List ℕ)
    → m.buffer ≡ wire c d body
    → set_type type m ≡ some (record m { buffer = wire (type % 256) (type / 256 % 256) body })
unfolding set_type poke le_bytes
set_type_lem m type c d body e = ground arith

pub get_length_lem :
    (m : Message) (c d : ℕ) (body : List ℕ)
    → m.buffer ≡ wire c d body
    → length m.buffer ≤ 0xffff
    → get_length m ≡ some (length m.buffer)
unfolding get_length peek_u16 peek
get_length_lem m c d body e h = ground (arith, ap length e)

pub get_type_lem :
    (m : Message) (c d : ℕ) (body : List ℕ)
    → m.buffer ≡ wire c d body
    → get_type m ≡ some (c + 256 * d)
unfolding get_type peek_u16 peek
get_type_lem m c d body e = ground arith
