-- ===== src/Server.antt =====
-- net_server.h and net_server.cpp: `SocketServer`. A socket is the 32-bit pattern of its `int`. Each
-- call runs under its mutex or on the one network thread, so it is one step here; Parts has the
-- pieces of those that take no lock or let go of it in between. The tables own their packets: what a
-- handler changes through a pointer is written back to the table.
pub mod Loop
pub mod Poll
pub mod Rounds
pub mod Reassembly
pub mod Joining
pub mod Delivery
pub mod Framing
pub mod Outbox
pub mod Sound
pub mod Turns
pub mod Persisting
pub mod Reading
pub mod Cutting
pub mod Parts
pub mod Termination
pub mod Hangup
pub mod Isolation
pub mod Setup
pub mod Sending
use pserver.Prelude.{
  ℕ, zero, suc, ◌+◌, ◌-◌, ◌*◌, ◌/◌, ◌%◌, ◌^◌, ◌≤◌, ◌<◌, ◌≡◌, refl, sym, ap, ◌∙◌, ◌≢◌, ◌⊎◌, inl, inr,
  Bool, true, false, not, ◌&&◌, ◌||◌, List, [], ◌∷◌, ◌++◌, map, append_assoc, append-nil, Option,
  none, some, arith, leb, ltb, ◌==◌, ==_iff, if◌then◌else◌, Bool-cases, Option-cases, length,
  get_or, set, count_if, take, drop, replicate, All, length-append, length-set, length-take,
  length-drop, length-replicate, ◌>>=◌, ◌>>◌, Returns,
}
use pserver.HashTable
use pserver.HashTable.{Table}
use pserver.Kernel.{Kernel, Events, no_events, ctl_add, ctl_mod, ctl_del, eagain}
use pserver.Message.Transfer
use pserver.Message.Transfer.{Ret}
use pserver.Message
use pserver.Message.{Message}
use pserver.PackageList
use pserver.PackageList.{PackageList}

abbrev pub max_conn : ℕ
max_conn = 4096

-- What is logged: `sock:%d is closed.`, that a packet of the test protocol came in, `NetMessage type
-- error. sock:%d,type:%d`, and the timer.
pub data Entry : Type 0 where
  closed : ℕ → Entry
  received : ℕ → Entry
  type_error : ℕ → ℕ → Entry
  timer : Entry

-- `last_connect` is the array of `MAX_CONN + 1` times. `on_close` is the callback once it is set, as
-- what it does to the log: `OnSockClose` is the only one, and does nothing else. `cur_time` is the time
-- of `TimeManager`, and `entries` are the lines that the packets, the closed sockets and the timer leave
-- in the log.
pub record Server (S : Type 0) : Type 0 where
  pub listen_sock : ℕ
  pub send_list : Table Message
  pub recv_list : Table Message
  pub packages : PackageList Message
  pub last_connect : List ℕ
  pub on_close : Option (ℕ → List Entry → List Entry)
  pub cur_time : ℕ
  pub entries : List Entry
  pub world : S

abbrev pub is_negative : ℕ → Bool
is_negative sock = leb (2 ^ 31) sock

abbrev pub epoll_in : Events
epoll_in = record no_events { epollin = true }

abbrev pub epoll_in_out : Events
epoll_in_out = record no_events { epollin = true; epollout = true }

module _ {S : Type 0} where
  -- `SocketServer()`, over a world in which nothing is observed yet
  unfoldable pub new : S → Server S
  new world = record {
    listen_sock = 0;
    send_list = HashTable.new;
    recv_list = HashTable.new;
    packages = PackageList.new;
    last_connect = replicate (max_conn + 1) 0;
    on_close = none;
    cur_time = 0;
    entries = [];
    world = world;
  }

  unfoldable pub observe_connect_close : (ℕ → List Entry → List Entry) → Server S → Server S
  observe_connect_close fun s = record s { on_close = some fun }

  unfoldable pub update_connect_time : ℕ → Server S → Server S
  update_connect_time sock s =
      if is_negative sock || ltb max_conn sock
      then s
      else record s { last_connect = set s.last_connect sock s.cur_time }

  unfoldable pub get_package : Server S → Server S × Option (ℕ × Message)
  get_package s =
      let (packages, node) = PackageList.get_msg s.packages in
      (record s { packages = packages }, node)

module _ {S : Type 0} (k : Kernel S) where
  -- an empty callback throws, and a write past the array is a fault
  unfoldable pub close_connect : ℕ → Server S → Option (Server S)
  close_connect sock s = do
    fun ← s.on_close
    if ltb sock (length s.last_connect)
        then some (record s {
          packages = PackageList.del_msg sock s.packages;
          send_list = (HashTable.erase sock s.send_list).0;
          last_connect = set s.last_connect sock 0;
          world = k.close sock (k.epoll_ctl ctl_del sock no_events s.world).1;
          entries = fun sock s.entries;
        })
        else none

  unfoldable pub on_send : ℕ → Server S → Option (Server S)
  on_send sock s = elim (HashTable.find sock s.send_list) [
    | none ↦ some s
    | some msg ↦ do
      (msg', ret, world) ← Transfer.send (k.send sock) msg s.world
      let (msg'', done) = Transfer.send_done msg'
      if done
          then some (record s {
            send_list = (HashTable.erase sock s.send_list).0;
            world = (k.epoll_ctl ctl_mod sock epoll_in world).1;
          })
          else some (record s {
            send_list = HashTable.update_value sock msg'' s.send_list;
            world = world;
          })
  ]

  -- the rest of `SendMsg` once no packet waits: what is not sent at once waits if `errno` says so
  unfoldable pub send_now : ℕ → Message → Server S → Option (Server S × Message)
  send_now sock msg s = do
    (msg', ret, world) ← Transfer.send (k.send sock) msg s.world
    let (msg'', done) = Transfer.send_done msg'
    if done
        then some (record s { world = world }, msg'')
        else (if k.errno world == eagain
            then (do
              fresh ← Message.new
              queued ← Message.copy fresh msg''
              some (
                record s {
                  send_list = HashTable.insert sock queued s.send_list;
                  world = (k.epoll_ctl ctl_mod sock epoll_in_out world).1;
                },
                msg'',
              ))
            else some (record s { world = world }, msg''))

  -- `SendMsg`; the message comes back, since it is passed by reference
  unfoldable pub send_msg : ℕ → Message → Bool → Server S → Option (Server S × Message)
  unfolding send_now
  send_msg sock msg clear_old s =
      if is_negative sock
      then some (s, msg)
      else (let msg' = Message.re_send msg in
          let s' =
            if clear_old
            then record s { send_list = (HashTable.erase sock s.send_list).0 }
            else s in
          elim (HashTable.find sock s'.send_list) [
            | some old ↦ do
              old' ← Message.append old msg'
              some (record s' { send_list = HashTable.update_value sock old' s'.send_list }, msg')
            | none ↦ send_now sock msg' s'
          ])
