-- ===== src/Server/Parts.antt =====
-- net_server.cpp: the parts of one event of the network thread, between which the handler thread can run.
-- The packet of a socket is the one in the table, as it is between two rounds of `OnRecv`.
use pserver.Prelude.{
  ℕ, ◌<◌, ◌≡◌, subst, inl, inr, Bool, true, false, List, none, some, arith, ltb, Bool-cases,
  Option-cases, length, set,
}
use pserver.HashTable
use pserver.Kernel.{Kernel, TakesAtMost, ctl_del, no_events}
use pserver.PackageList
use pserver.Message
use pserver.Message.{Message}
use pserver.Message.Progress.{InProgress, recv-InProgress, recv_done-InProgress, new-InProgress}
use pserver.Message.Transfer
use pserver.Message.Transfer.{Ret}
use pserver.Server.{Entry, Server, close_connect, on_send}
use pserver.Server.Loop.{forget, finish}
use pserver.Server.Poll.{accept_one}
use pserver.Server.Sound.{IsSound}
use pserver.Server.Sound.Closing.{
  forget-IsSound, world-IsSound, log-IsSound, del_msg-IsSound, erase_unsent-IsSound,
}
use pserver.Server.Sound.Packets.{Finished, insert-IsSound, update-IsSound, finish-IsSound}
use pserver.Server.Sound.Polling.{accept_one-IsSound}
use pserver.Server.Sound.Sending.{on_send-IsSound}
use pserver.Server.Turns.{held}

module _ {S : Type 0} (k : Kernel S) where
  -- A connection is accepted; a packet is made for a socket, gets bytes, or is queued; what waits on a
  -- socket is sent; the packet that comes in is dropped; or one piece of `CloseConnect`, which holds no
  -- lock up to the last of them: the socket leaves the epoll set, the callback is called, the socket's
  -- packets are deleted, the descriptor is closed, and what waits to be sent is dropped with the time.
  pub data Part (s : Server S) : Server S → Type 0 where
    accepts : (sock : ℕ) → Part s (accept_one k sock s)
    makes_packet :
        (sock : ℕ) (fresh : Message)
        → HashTable.find sock s.recv_list ≡ none
        → Message.new ≡ some fresh
        → Part s (record s { recv_list = HashTable.insert sock fresh s.recv_list })
    receives :
        (sock : ℕ) (msg m : Message) (ret : Ret) (w : S)
        → HashTable.find sock s.recv_list ≡ some msg
        → Transfer.recv (k.recv sock) msg s.world ≡ some (m, ret, w)
        → Part s (held k sock m w s)
    finishes :
        (sock : ℕ) (msg m : Message) (s' : Server S) (taken : Bool)
        → HashTable.find sock s.recv_list ≡ some msg
        → Transfer.recv_done msg ≡ some true
        → finish sock msg s ≡ some (m, s', taken)
        → Part s s'
    sends : (sock : ℕ) (s' : Server S) → on_send k sock s ≡ some s' → Part s s'
    forgets : (sock : ℕ) → Part s (forget sock s)
    leaves_epoll :
        (sock : ℕ) → Part s (record s { world = (k.epoll_ctl ctl_del sock no_events s.world).1 })
    calls_back :
        (sock : ℕ) (fun : ℕ → List Entry → List Entry)
        → s.on_close ≡ some fun
        → Part s (record s { entries = fun sock s.entries })
    deletes_packages :
        (sock : ℕ) → Part s (record s { packages = PackageList.del_msg sock s.packages })
    shuts : (sock : ℕ) → Part s (record s { world = k.close sock s.world })
    drops_unsent :
        (sock : ℕ)
        → sock < length s.last_connect
        → Part s (record s {
          send_list = (HashTable.erase sock s.send_list).0;
          last_connect = set s.last_connect sock 0;
        })

  -- The socket that a part is about.
  unfoldable pub socket_of : (s : Server S) {s' : Server S} → Part s s' → ℕ
  socket_of s (accepts sock) = sock
  socket_of s (makes_packet sock _ _ _) = sock
  socket_of s (receives sock _ _ _ _ _ _) = sock
  socket_of s (finishes sock _ _ _ _ _ _ _) = sock
  socket_of s (sends sock _ _) = sock
  socket_of s (forgets sock) = sock
  socket_of s (leaves_epoll sock) = sock
  socket_of s (calls_back sock _ _) = sock
  socket_of s (deletes_packages sock) = sock
  socket_of s (shuts sock) = sock
  socket_of s (drops_unsent sock _) = sock

  -- The pieces of `CloseConnect`, one behind the other.
  pub data Parts (s : Server S) : Server S → Type 0 where
    no_parts : Parts s s
    then_part : (s1 s2 : Server S) → Parts s s1 → Part s1 s2 → Parts s s2

  -- `CloseConnect` is its pieces in the order of the source, with nothing between them.
  pub close_connect-Parts :
      (sock : ℕ) (s s' : Server S) → close_connect k sock s ≡ some s' → Parts s s'
  unfolding close_connect
  close_connect-Parts sock s s' e = elim (Option-cases s.on_close) [
    | inl none' ↦ absurd (ground (arith, e))
    | inr (fun, f) ↦ elim (Bool-cases (ltb sock (length s.last_connect))) [
      | inr out ↦ absurd (ground (arith, e, f))
      | inl within ↦
          let s1 : Server S = record s { world = (k.epoll_ctl ctl_del sock no_events s.world).1 } in
          let s2 : Server S = record s1 { entries = fun sock s.entries } in
          let s3 : Server S = record s2 { packages = PackageList.del_msg sock s.packages } in
          let s4 : Server S = record s3 { world = k.close sock s1.world } in
          let s5 : Server S = record s4 {
            send_list = (HashTable.erase sock s.send_list).0;
            last_connect = set s.last_connect sock 0;
          } in
          subst (Parts s) {x = s5} (ground (arith, e, f)) (
            then_part s4 s5
              (then_part s3 s4
                (then_part s2 s3
                  (then_part s1 s2 (then_part s s1 no_parts (leaves_epoll sock))
                    (calls_back sock fun f))
                  (deletes_packages sock))
                (shuts sock))
              (drops_unsent sock (ground (arith, within))))
    ]
  ]

  Finished-IsSound : (sock : ℕ) (r : Message × Server S × Bool) → Finished sock r → IsSound r.1
  Finished-IsSound sock (m, s, true) ok = ok.0
  Finished-IsSound sock (m, s, false) ok = ok.0

  pub Part-IsSound : TakesAtMost k → (s s' : Server S) → Part s s' → IsSound s → IsSound s'
  Part-IsSound takes s _ (accepts sock) v = accept_one-IsSound k sock s v
  Part-IsSound takes s _ (makes_packet sock fresh gone made) v =
      let (m, e, q) = new-InProgress in
      insert-IsSound sock s fresh v
        (subst InProgress {x = m} {y = fresh} (ground (arith, e, made)) q)
  Part-IsSound takes s _ (receives sock msg m ret w here r) v =
      (update-IsSound sock s m w v (msg, here)
        (recv-InProgress (k.recv sock) msg m ret s.world w (v.partial sock msg here) r)).0
  Part-IsSound takes s _ (finishes sock msg m s' taken here whole f) v =
      let p = v.partial sock msg here in
      let (r, made, ok) = finish-IsSound sock msg s v p (recv_done-InProgress msg p whole) in
      Finished-IsSound sock (m, s', taken)
        (subst (Finished sock) {x = r} {y = (m, s', taken)} (ground (arith, made, f)) ok)
  Part-IsSound takes s _ (sends sock s' e) v =
      let (r, f, ok) = on_send-IsSound k takes sock s v in
      subst IsSound {x = r} (ground (arith, e, f)) ok
  Part-IsSound takes s _ (forgets sock) v = forget-IsSound s v sock
  Part-IsSound takes s _ (leaves_epoll sock) v = world-IsSound s v _
  Part-IsSound takes s _ (calls_back sock fun on) v = log-IsSound s v _
  Part-IsSound takes s _ (deletes_packages sock) v = del_msg-IsSound s v sock
  Part-IsSound takes s _ (shuts sock) v = world-IsSound s v _
  Part-IsSound takes s _ (drops_unsent sock within) v = erase_unsent-IsSound s v sock
