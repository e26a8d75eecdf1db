-- ===== src/Message.antt =====
-- net_message.h and net_message.cpp: the packet buffer. Bytes 0 and 1 hold the length of the body,
-- bytes 2 and 3 the type, and the body follows. `GetLength` and the positions are `uint16` and wrap.
-- The log lines of the error branches are left out; `MsgPool` is an allocator of boost.
pub mod Fields
pub mod Streams
pub mod RoundTrip
pub mod Transfer
pub mod Padding
pub mod Receive
pub mod Progress
pub mod Overflow
use pserver.Prelude.{
  ℕ, zero, suc, ◌+◌, ◌-◌, ◌*◌, ◌%◌, ◌≤◌, ◌<◌, ◌≡◌, refl, List, [], ◌∷◌, ◌++◌, Option, none, some,
  Bool, true, false, arith, leb, ltb, ◌==◌, if◌then◌else◌, length, take, drop, replicate, ◌>>=◌,
}
use pserver.Bytes.{to_u16, peek_u16, poke, poke_u16, resize, le_bytes, le_value}

abbrev pub head_len : ℕ
head_len = 4

abbrev pub type_begin : ℕ
type_begin = 2

abbrev pub max_len : ℕ
max_len = 0xffff

-- `m_msg` is `buffer`.
pub record Message : Type 0 where
  pub read_pos : ℕ
  pub buffer : List ℕ
  pub recv_len : ℕ
  pub send_begin : ℕ

unfoldable pub get_length : Message → Option ℕ
get_length m = do field ← peek_u16 m.buffer 0; some (to_u16 (field + head_len))

-- `(uint16)m_msg.length() - 4`, converted to `uint16` by the assignment.
abbrev pub length_field : ℕ → ℕ
length_field n = to_u16 (to_u16 n + 65532)

unfoldable pub set_length : Message → Option Message
set_length m = do
  buffer ← poke_u16 m.buffer 0 (length_field (length m.buffer))
  some (record m { buffer = buffer })

unfoldable pub new : Option Message
new =
    set_length
      (record { read_pos = head_len; buffer = resize head_len []; recv_len = 0; send_begin = 0 })

unfoldable pub set_type : ℕ → Message → Option Message
set_type type m = do buffer ← poke_u16 m.buffer type_begin type; some (record m { buffer = buffer })

unfoldable pub get_type : Message → Option ℕ
get_type m = peek_u16 m.buffer type_begin

unfoldable pub re_write : Message → Message
re_write m = record m { send_begin = 0; buffer = resize head_len [] }

unfoldable pub re_read : Message → Message
re_read m = record m { read_pos = head_len }

unfoldable pub re_send : Message → Message
re_send m = record m { send_begin = 0 }

-- `insert` throws where `send_begin` is past the end: the length is then a negative `int`.
unfoldable pub copy : Message → Message → Option Message
copy m msg =
    if leb msg.send_begin (length msg.buffer)
    then some (record m { buffer = drop msg.send_begin msg.buffer; send_begin = 0 })
    else none

-- `Write(pData, length)`, with the bytes at `pData`.
unfoldable pub write : List ℕ → Message → Option Message
write bytes m = set_length (record m { buffer = m.buffer ++ bytes })

-- `Write(begin, pData, length)`
unfoldable pub write_at : ℕ → List ℕ → Message → Option Message
write_at begin bytes m =
    if ltb (length m.buffer) (begin + length bytes)
    then some m
    else (do buffer ← poke m.buffer begin bytes; some (record m { buffer = buffer }))

-- `none` as an argument is the null pointer.
unfoldable pub set_data : Option (List ℕ) → Message → Message
set_data none m = m
set_data (some bytes) m = record m { buffer = bytes }

-- `dataLen` is a `uint16`, so only so many bytes of the other message are taken over.
unfoldable pub append : Message → Message → Option Message
append m msg =
    if leb max_len (length m.buffer)
    then some m
    else if leb msg.send_begin (length msg.buffer)
    then some (record m {
      buffer =
          drop m.send_begin m.buffer
          ++ take (to_u16 (length msg.buffer - msg.send_begin)) (drop msg.send_begin msg.buffer);
      send_begin = 0;
    })
    else none

-- `Read(pData, length)`: `none` in the second place leaves the target as it is.
unfoldable pub read : ℕ → Message → Message × Option (List ℕ)
read count m = if ltb (length m.buffer) (m.read_pos + count) then (m, none) else (
  record m { read_pos = to_u16 (m.read_pos + count) },
  some (take count (drop m.read_pos m.buffer)),
)

abbrev value_or : ℕ → Option (List ℕ) → ℕ
value_or old none = old
value_or old (some bytes) = le_value bytes

-- `operator >>` for an integer of `w` bytes that held `old`.
unfoldable pub get_int : ℕ → ℕ → Message → Message × ℕ
get_int w old m = let (m', bytes) = read w m in (m', value_or old bytes)

-- `operator <<` for an integer of `w` bytes.
unfoldable pub put_int : ℕ → ℕ → Message → Option Message
put_int w value m = write (le_bytes w value) m

-- `ReadString` into a string that held `old`.
unfoldable pub get_string : List ℕ → Message → Message × List ℕ
get_string old m =
    let (m', len) = get_int 2 0 m in
    if leb len 0
    then (m', old)
    else if ltb (length m'.buffer) (m'.read_pos + len)
    then (m', old)
    else (
      record m' { read_pos = to_u16 (m'.read_pos + len) },
      take len (drop m'.read_pos m'.buffer),
    )

-- `operator <<` for `std::string`, and for C strings, whose bytes stop before the first NUL.
unfoldable pub put_string : List ℕ → Message → Option Message
put_string text m = do
  let len = to_u16 (length text)
  m' ← put_int 2 len m
  if ltb 0 len then write (take len text) m' else some m'

-- `operator <<` for a message; `substr` throws where the other is shorter than its header.
unfoldable pub put_message : Message → Message → Option Message
put_message val m =
    if leb head_len (length val.buffer)
    then set_length (record m { buffer = m.buffer ++ drop head_len val.buffer })
    else none

-- `operator >>` for a message: the whole body, wherever reading stands.
unfoldable pub get_message : Message → Message → Option Message
get_message m val = put_message m val
