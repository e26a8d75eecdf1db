-- ===== src/Server/Hangup.antt =====
-- net_server.cpp, `DespatchEvent`: a connection whose stream ends together with a hangup.
use pserver.Prelude.{
  ℕ, suc, ◌<◌, ◌≡◌, refl, ap, ◌∙◌, ◌≢◌, true, false, ◌||◌, List, some, arith, leb, ==_ne, length,
  set, length-set, Returns,
}
use pserver.HashTable
use pserver.Kernel.{Kernel, Events, ctl_del, no_events}
use pserver.Message.{Message}
use pserver.Message.Transfer
use pserver.Message.Transfer.{count}
use pserver.PackageList
use pserver.Server.{Entry, Server, is_negative, close_connect}
use pserver.Server.Loop.{forget, recv_loop, after_loop, on_recv}
use pserver.Server.Poll.{on_event}

-- bytes to read and a hangup, as a peer that closes causes them
abbrev pub hangup : Events
hangup = record no_events { epollin = true; epollhup = true }

module _ {S : Type 0} (k : Kernel S) (sock : ℕ) where
  -- What the outside sees of `CloseConnect`.
  abbrev pub shut : S → S
  shut w = k.close sock (k.epoll_ctl ctl_del sock no_events w).1

  close_connect-shut :
      (s : Server S) (fun : ℕ → List Entry → List Entry)
      → s.on_close ≡ some fun
      → sock < length s.last_connect
      → Returns (close_connect k sock s) λ s'.
        (s'.world ≡ shut s.world)
        × (s'.entries ≡ fun sock s.entries)
        × (s'.on_close ≡ some fun)
        × (length s'.last_connect ≡ length s.last_connect)
  unfolding close_connect
  close_connect-shut s fun e lt = (
    record s {
      packages = PackageList.del_msg sock s.packages;
      send_list = (HashTable.erase sock s.send_list).0;
      last_connect = set s.last_connect sock 0;
      world = shut s.world;
      entries = fun sock s.entries;
    },
    ground (arith, e),
    (refl, refl, e, length-set s.last_connect sock 0),
  )

  on_recv_end :
      (fuel : ℕ) (s s' : Server S) (msg m' : Message) (w : S)
      → sock < 4096
      → HashTable.find sock s.recv_list ≡ some msg
      → Transfer.recv (k.recv sock) msg s.world ≡ some (m', count 0, w)
      → close_connect k sock (
          forget sock
            (record s { recv_list = HashTable.update_value sock m' s.recv_list; world = w }))
        ≡ some s'
      → on_recv k (suc fuel) sock s ≡ some (some s')
  unfolding on_recv recv_loop after_loop
  on_recv_end fuel s s' msg m' w lt f r c =
      let within : (is_negative sock || leb 4096 sock) ≡ false = ground arith in
      rw (within, f, r, c) refl

  -- A socket of the server but not its listener, in the range of the array of times and with a callback
  -- set, whose packet gets the end of the stream: on an event that also reports the hangup,
  -- `CloseConnect` runs twice: the descriptor is closed twice, and the callback is called twice.
  pub on_event-closes_twice :
      (fuel : ℕ) (s : Server S) (fun : ℕ → List Entry → List Entry) (msg m' : Message) (w : S)
      → s.listen_sock ≢ sock
      → sock < 4096
      → length s.last_connect ≡ 4097
      → s.on_close ≡ some fun
      → HashTable.find sock s.recv_list ≡ some msg
      → Transfer.recv (k.recv sock) msg s.world ≡ some (m', count 0, w)
      → (s' : Server S) × (on_event k (suc fuel) (sock, hangup) s ≡ some (some s'))
        × (s'.world ≡ shut (shut w))
        × (s'.entries ≡ fun sock (fun sock s.entries))
  unfolding on_event
  on_event-closes_twice fuel s fun msg m' w other lt times e f r =
      let s1 : Server S =
        forget sock
          (record s { recv_list = HashTable.update_value sock m' s.recv_list; world = w }) in
      let (s2, g, (w2, l2, c2, t2)) = close_connect-shut s1 fun e (omega arith) in
      let (s3, h, (w3, l3, _, _)) = close_connect-shut (forget sock s2) fun c2 (omega arith) in
      let run = on_recv_end fuel s s2 msg m' w lt f r g in
      (s3, rw (==_ne sock s.listen_sock other, run, h) refl, w3 ∙ ap shut w2, l3 ∙ ap (fun sock) l2)
