-- ===== src/Tests/Sending.antt =====
-- The sending side: its theorems on concrete packets.
use pserver.Prelude.{
  ℕ, zero, suc, ◌≡◌, refl, false, [], ◌∷◌, ◌++◌, none, some, arith, length, take-all, Returns,
}
use pserver.HashTable
use pserver.HashTable.{Table}
use pserver.HashTable.Nodes.{find_node}
use pserver.HashTable.Laws.{IsValid, with_buckets-IsValid, insert-IsValid}
use pserver.Kernel.{Kernel, SendLaws, Received, got, sent}
use pserver.Message.{Message}
use pserver.Message.Fields.{wire}
use pserver.Message.Padding.{receiving}
use pserver.Message.Transfer.{recv, count}
use pserver.Message.Overflow.{recv_overflow}
use pserver.Server
use pserver.Server.{Server, on_send, send_msg}
use pserver.Server.Outbox.{pending, WaitingIsSendable, on_send-conserves}
use pserver.Server.Sending.{send_msg-conserves, send_msg_drops}
use pserver.Tests.{World, pipe}

pub pipe-SendLaws : SendLaws pipe 5 (λ w. w.output)
unfolding pipe
pipe-SendLaws = record {
  send_sent =
      λ bytes n s s' e. (ground (arith, e), ground (arith, e, take-all (length bytes) bytes));
  send_none = λ bytes s s' e. cc;
  ctl_same = λ op events s. refl;
}

-- a packet whose first two bytes are sent
abbrev begun : Message
begun = record { read_pos = 4; buffer = wire 1 0 (65 ∷ []); recv_len = 0; send_begin = 2 }

abbrev table : Table Message
table = HashTable.insert 5 begun (HashTable.with_buckets 4)

table-IsValid : IsValid table
table-IsValid = insert-IsValid 5 (HashTable.with_buckets 4) (with_buckets-IsValid 4) begun

table-find : HashTable.find 5 table ≡ some begun
unfolding HashTable.find HashTable.insert HashTable.with_buckets find_node
table-find = refl

abbrev server : Server World
server = record (Server.new (record { input = []; output = []; error = 11 })) { send_list = table }

fits : WaitingIsSendable (HashTable.find 5 table)
fits = rw table-find (omega arith, omega arith)

on_send-conserves_example :
    Returns
      (on_send pipe 5 server)
      λ s'. s'.world.output ++ pending 5 s' ≡ server.world.output ++ pending 5 server
on_send-conserves_example =
    on_send-conserves pipe 5 (λ w. w.output) pipe-SendLaws server table-IsValid fits

send_msg-conserves_example : Returns (send_msg pipe 5 begun false server) λ r.
    r.0.world.output ++ pending 5 r.0 ≡ (server.world.output ++ pending 5 server) ++ begun.buffer
unfolding pipe Server.new
send_msg-conserves_example =
    send_msg-conserves pipe 5 (λ w. w.output) pipe-SendLaws server begun refl table-IsValid fits
      (rw table-find (omega arith)) (omega arith) (λ part. refl)

-- a kernel that takes one byte of each packet
abbrev slow : Kernel World
slow = record pipe { send = λ sock bytes w. (sent 1, w) }

abbrev idle : Server World
idle = record (Server.new (record { input = []; output = []; error = 0 })) {
  send_list = HashTable.with_buckets 4;
}

send_msg_drops_example :
    send_msg slow 5 begun false idle ≡ some (idle, record begun { send_begin = 1 })
unfolding pipe Server.new HashTable.find HashTable.with_buckets find_node
send_msg_drops_example =
    send_msg_drops slow 5 idle begun 1 idle.world refl refl (omega arith) refl (omega arith)
      (λ e. absurd (omega arith))

-- a peer that sends the header, and then 65
abbrev peer : ℕ → ℕ → Received × ℕ
peer n zero = (got (253 ∷ 255 ∷ 1 ∷ 0 ∷ []), 1)
peer n (suc w) = (got (65 ∷ []), 1)

recv_overflow_example :
    Returns
      (recv peer (receiving []) 0)
      λ r. (r.1 ≡ count 4) × (length r.0.buffer ≡ 1) × (r.2 ≡ 1) × (recv peer r.0 1 ≡ none)
recv_overflow_example = recv_overflow peer 0 1 1 1 0 65 [] refl refl
