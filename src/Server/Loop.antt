-- ===== src/Server/Loop.antt =====
-- net_server.cpp: `OnRecv`, and `DespatchEvent` with its loops.
use pserver.Prelude.{
  ℕ, zero, suc, Bool, true, false, ◌||◌, Option, none, some, leb, ltb, ◌==◌, if◌then◌else◌, ◌>>=◌,
}
use pserver.HashTable
use pserver.Kernel.{Kernel, eagain}
use pserver.Message.Transfer
use pserver.Message.Transfer.{Ret, count, failed}
use pserver.Message
use pserver.Message.{Message, max_len}
use pserver.PackageList
use pserver.Server.{Server, max_conn, is_negative, update_connect_time, close_connect}

-- How the receive loop ends: by a result that is not positive, by a `return`, or out of fuel.
pub data Loop (S : Type 0) : Type 0 where
  ended : Ret → Server S → Loop S
  returned : Server S → Loop S
  out_of_fuel : Loop S

module _ {S : Type 0} where
  -- `m_recvMsgList.Erase(sock)`, whatever becomes of the packet
  abbrev pub forget : ℕ → Server S → Server S
  forget sock s = record s { recv_list = (HashTable.erase sock s.recv_list).0 }

  -- A packet is complete: it is queued, and a new one takes its place.
  unfoldable pub finish : ℕ → Message → Server S → Option (Message × Server S × Bool)
  finish sock msg s = do
    let s' = forget sock s
    let (packages, taken) = PackageList.add_msg msg sock s'.packages
    if taken
        then (do
          fresh ← Message.new
          let s'' = update_connect_time sock (record s' { packages = packages })
          some (fresh, record s'' { recv_list = HashTable.insert sock fresh s''.recv_list }, true))
        else some (msg, s', false)

module _ {S : Type 0} (k : Kernel S) where
  abbrev pub close_and_return : ℕ → Server S → Option (Loop S)
  close_and_return sock s = do s' ← close_connect k sock s; some (returned s')

  -- `while ((len = pMsg->Recv(sock)) > 0)`
  unfoldable pub recv_loop : ℕ → ℕ → Message → Server S → Option (Loop S)
  unfolding finish
  recv_loop zero sock msg s = some out_of_fuel
  recv_loop (suc fuel) sock msg s = do
    (msg', ret, world) ← Transfer.recv (k.recv sock) msg s.world
    let s' = record s { recv_list = HashTable.update_value sock msg' s.recv_list; world = world }
    elim ret [
      | failed ↦ some (ended failed s')
      | count zero ↦ some (ended (count 0) s')
      | count (suc n) ↦ do
        len ← Message.get_length msg'
        done ← Transfer.recv_done msg'
        let again = recv_loop fuel sock msg' s'
        if ltb max_len len
            then close_and_return sock (forget sock s')
            else (if done
                then (do
                  (fresh, s'', taken) ← finish sock msg' s'
                  let next = recv_loop fuel sock fresh s''
                  if taken then next else close_and_return sock s'')
                else again)
    ]

  -- what follows the loop
  unfoldable pub after_loop : ℕ → Loop S → Option (Option (Server S))
  after_loop sock out_of_fuel = some none
  after_loop sock (returned s) = some (some s)
  after_loop sock (ended (count zero) s) = do
    s' ← close_connect k sock (forget sock s)
    some (some s')
  after_loop sock (ended (count (suc n)) s) = some (some s)
  after_loop sock (ended failed s) =
      if k.errno s.world == eagain
      then some (some s)
      else (do s' ← close_connect k sock (forget sock s); some (some s'))

  -- `OnRecv`; the inner `none` is a loop out of fuel
  unfoldable pub on_recv : ℕ → ℕ → Server S → Option (Option (Server S))
  unfolding recv_loop after_loop
  on_recv fuel sock s =
      if is_negative sock || leb max_conn sock
      then some (some s)
      else elim (HashTable.find sock s.recv_list) [
        | some msg ↦ do l ← recv_loop fuel sock msg s; after_loop sock l
        | none ↦ do
          fresh ← Message.new
          l ←
              recv_loop fuel sock fresh
                (record s { recv_list = HashTable.insert sock fresh s.recv_list })
          after_loop sock l
      ]
