-- ===== src/Message/Transfer.antt =====
-- net_message.cpp: `Recv`, `RecvDone`, `Send` and `SendDone`. The system call is an argument.
use pserver.Prelude.{
  ℕ, ◌+◌, ◌-◌, Bool, List, Option, none, some, leb, ltb, ◌==◌, if◌then◌else◌, length, drop, ◌>>=◌,
}
use pserver.Bytes.{to_u16, poke, resize}
use pserver.Kernel.{Received, got, recv_failed, Sent, sent, send_failed}
use pserver.Message.{Message, head_len, max_len, get_length}

-- The `int` that `Recv` and `Send` return.
pub data Ret : Type 0 where
  count : ℕ → Ret
  failed : Ret

-- `recv(sock, c_str() + m_recvLen, …)` and `m_recvLen += len`; bytes past the end are a fault
unfoldable pub store : Received → Message → Option (Message × Ret)
store recv_failed m = some (m, failed)
store (got bytes) m = do
  buffer ← poke m.buffer m.recv_len bytes
  some (
    record m { buffer = buffer; recv_len = to_u16 (m.recv_len + length bytes) },
    count (length bytes),
  )

module _ {S : Type 0} where
  unfoldable pub recv_head : (ℕ → S → Received × S) → Message → S → Option (Message × Ret × S)
  unfolding store
  recv_head ask m s = do
    let answer = ask (head_len - m.recv_len) s
    (m', ret) ← store answer.0 m
    if m'.recv_len == head_len
        then (do
          len ← get_length m'
          if ltb max_len len
              then some (m', count 0, answer.1)
              else some (record m' { buffer = resize len m'.buffer }, ret, answer.1))
        else some (m', ret, answer.1)

  unfoldable pub recv_body : (ℕ → S → Received × S) → Message → S → Option (Message × Ret × S)
  unfolding store
  recv_body ask m s = do
    len ← get_length m
    if ltb len m.recv_len then some (m, count 0, s) else (do
      let answer = ask (len - m.recv_len) s
      (m', ret) ← store answer.0 m
      some (m', ret, answer.1))

  unfoldable pub recv : (ℕ → S → Received × S) → Message → S → Option (Message × Ret × S)
  unfolding recv_head recv_body
  recv ask m s = if ltb m.recv_len head_len then recv_head ask m s else recv_body ask m s

  -- `msg` points past the end where `m_sendBegin` is too large: the length is then huge
  unfoldable pub send : (List ℕ → S → Sent × S) → Message → S → Option (Message × Ret × S)
  send put m s =
      if leb m.send_begin (length m.buffer)
      then (let answer = put (drop m.send_begin m.buffer) s in
          elim answer.0 [
            | sent n ↦ some (record m { send_begin = to_u16 (m.send_begin + n) }, count n, answer.1)
            | send_failed ↦ some (m, failed, answer.1)
          ])
      else none

unfoldable pub recv_done : Message → Option Bool
recv_done m = do len ← get_length m; some (len == m.recv_len)

unfoldable pub send_done : Message → Message × Bool
send_done m =
    let flag = leb (length m.buffer) m.send_begin in
    (if flag then record m { send_begin = 0 } else m, flag)
