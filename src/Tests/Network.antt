-- ===== src/Tests/Network.antt =====
-- Packets over a socket: the theorems of the network thread on concrete bytes.
use pserver.Prelude.{
  ℕ, ◌+◌, ◌-◌, ◌*◌, ◌≤◌, ◌≡◌, refl, sym, subst, List, [], ◌∷◌, ◌++◌, map, none, some, arith, ◌==◌,
  if◌then◌else◌, length, All, Returns,
}
use mathlib.Core.List.{flatten}
use pserver.Bytes.{le_bytes}
use pserver.HashTable
use pserver.HashTable.{Table}
use pserver.HashTable.Nodes.{find_node}
use pserver.HashTable.Laws.{IsValid, with_buckets-IsValid, insert-IsValid, with_buckets_size}
use pserver.Message.{Message, get_type, get_length}
use pserver.Message.Fields.{wire}
use pserver.Message.Padding.{receiving}
use pserver.Message.Streams.{Field, int, text, encode, encode_all, put_fields, get_fields}
use pserver.Message.RoundTrip.{get_fields-put_fields}
use pserver.Message.Transfer.{Ret}
use pserver.PackageList
use pserver.PackageList.Laws
use pserver.PackageList.Laws.{
  add, get, del, run, run-new-IsValid, get_msg-run, Gives, of_sock, of_sock-del_msg,
}
use pserver.Server
use pserver.Server.{Server}
use pserver.Server.Loop.{ended, recv_loop}
use pserver.Server.Reassembly.{IsFrame, IsPartial, Reassembles, Clean}
use pserver.Server.Framing.{Clean-flatten, recv_loop-delivers}
use pserver.Server.Delivery.{recv_loop-Reassembles}
use pserver.Tests.{World, pipe, pipe-StreamLaws, pipe-DrainLaws}

-- two packets of type 1, the first with one byte, and the start of a third
abbrev frames : List (List ℕ)
frames = (1 ∷ 0 ∷ 1 ∷ 0 ∷ 65 ∷ []) ∷ (0 ∷ 0 ∷ 1 ∷ 0 ∷ []) ∷ []

abbrev tail : List ℕ
tail = 2 ∷ 0 ∷ 1 ∷ []

abbrev input : List ℕ
input = 1 ∷ 0 ∷ 1 ∷ 0 ∷ 65 ∷ 0 ∷ 0 ∷ 1 ∷ 0 ∷ 2 ∷ 0 ∷ 1 ∷ []

frames-IsFrame : All IsFrame frames
frames-IsFrame = (
  record { header = omega arith; size = refl; narrow = (omega arith, omega arith) },
  (record { header = omega arith; size = refl; narrow = (omega arith, omega arith) }, tt),
)

tail-IsPartial : IsPartial tail
tail-IsPartial = ((omega arith, omega arith), omega arith)

abbrev table : Table Message
table = HashTable.insert 5 (receiving []) (HashTable.with_buckets 4)

abbrev server : Server World
server = record (Server.new (record { input = input; output = []; error = 0 })) {
  recv_list = table;
}

table-IsValid : IsValid table
table-IsValid = insert-IsValid 5 (HashTable.with_buckets 4) (with_buckets-IsValid 4) (receiving [])

table-present : HashTable.find 5 table ≡ some (receiving [])
unfolding HashTable.find HashTable.insert HashTable.with_buckets find_node
table-present = refl

input-split : input ≡ flatten frames ++ tail
unfolding flatten
input-split = refl

input-Clean : Clean input
input-Clean =
    subst Clean (sym input-split) (Clean-flatten frames tail frames-IsFrame tail-IsPartial)

input-server : server.world.input ≡ flatten frames ++ tail
unfolding Server.new
input-server = input-split

recv_loop-delivers_example :
    (ret : Ret) × (after : Server World) × (recv_loop pipe 13 5 (receiving []) server
      ≡ some (ended ret after))
    × (after.packages.messages ≡ server.packages.messages ++ map (λ f. (5, receiving f)) frames)
    × (HashTable.find 5 after.recv_list ≡ some (receiving tail))
    × (after.world.input ≡ [])
unfolding Server.new PackageList.new
recv_loop-delivers_example =
    recv_loop-delivers pipe 5 (λ w. w.input) (pipe-DrainLaws 5) (pipe-StreamLaws 5) 13 server []
      frames tail (omega arith) input-server (tt, omega arith) frames-IsFrame tail-IsPartial
      (omega arith) table-IsValid table-present

recv_loop-Reassembles_example :
    Reassembles 5 (λ w. w.input) pipe server [] (recv_loop pipe 13 5 (receiving []) server)
unfolding Server.new
recv_loop-Reassembles_example =
    recv_loop-Reassembles pipe 5 (λ w. w.input) (pipe-StreamLaws 5) 13 server [] (omega arith)
      input-Clean (tt, omega arith) table-IsValid table-present

with_buckets_size_example :
    let t = HashTable.with_buckets {V = ℕ} 100 in
    (100 ≤ length t.chains)
    × (length t.chains ≤ 2 * 100)
    × (t.mod_mask ≡ length t.chains - 1)
    × IsValid t
    × ((i : ℕ) → HashTable.find i t ≡ none)
with_buckets_size_example = with_buckets_size {V = ℕ} 100 (omega arith) (omega arith)

-- The packets of two connections; one of these closes before its last packet is taken.
abbrev calls : List (PackageList.Laws.Step ℕ)
calls = add 70 5 ∷ add 80 6 ∷ add 71 5 ∷ get ∷ del 5 ∷ []

get_msg-run_example :
    Gives (run PackageList.new calls).messages (PackageList.get_msg (run PackageList.new calls))
get_msg-run_example = get_msg-run calls

of_sock-del_msg_example :
    of_sock 6 (PackageList.del_msg 5 (run PackageList.new calls)).messages
    ≡ (if 5 == 6 then [] else of_sock 6 (run PackageList.new calls).messages)
of_sock-del_msg_example = of_sock-del_msg 5 6 (run PackageList.new calls)

-- A packet of type 1, empty but for its header, and values for it.
abbrev empty : Message
empty = record { read_pos = 4; buffer = wire 1 0 []; recv_len = 0; send_begin = 0 }

abbrev values : List Field
values = int 2 513 ∷ text (104 ∷ 105 ∷ []) ∷ int 1 9 ∷ []

abbrev variables : List Field
variables = int 2 0 ∷ text [] ∷ int 1 0 ∷ []

values-short : length empty.buffer + length (encode_all values) ≤ 0xffff
unfolding encode_all encode le_bytes
values-short = omega arith

get_fields-put_fields_example : Returns (put_fields values empty) λ m'.
    (get_length m' ≡ some (length m'.buffer))
    × (get_type m' ≡ get_type empty)
    × (get_fields variables m' ≡ (record m' { read_pos = length m'.buffer }, values))
get_fields-put_fields_example =
    get_fields-put_fields values variables empty 1 0 [] refl refl values-short (omega arith)
      (refl, (refl, (refl, tt)))
