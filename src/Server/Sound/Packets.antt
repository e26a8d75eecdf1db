-- ===== src/Server/Sound/Packets.antt =====
-- net_server.cpp, `OnRecv`: the packet of a socket in the table, and the queue that takes it.
use pserver.Prelude.{
  ℕ, ◌≤◌, ◌≡◌, ◌∙◌, inl, inr, Bool, true, false, [], ◌∷◌, some, ltb, Bool-cases, ==_refl,
  Option-cases, length, count_if, All, All-append, Returns,
}
use pserver.HashTable
use pserver.HashTable.Laws.{
  IsValid, insert-IsValid, update_value-IsValid, find-insert, find-update_value,
}
use pserver.HashTable.Holds.{Holds, Holds-insert, Holds-update_value}
use pserver.Message.{Message}
use pserver.Message.Progress.{InProgress, new-InProgress}
use pserver.PackageList
use pserver.PackageList.Laws
use pserver.Server.{Server, update_connect_time}
use pserver.Server.Loop.{forget, finish}
use pserver.Server.Sound.{HasHeader, IsSound}
use pserver.Server.Sound.Closing.{forget-IsSound, update_connect_time-IsSound}

All-add_msg :
    (msg : Message) (sock : ℕ) (l : PackageList.PackageList Message)
    → 4 ≤ length msg.buffer
    → All HasHeader l.messages
    → All HasHeader (PackageList.add_msg msg sock l).0.messages
unfolding PackageList.add_msg
All-add_msg msg sock l long h =
    elim (Bool-cases (ltb 200 (count_if (PackageList.msg_equal sock) l.messages))) [
      | inl full ↦ rw full h
      | inr room ↦ rw room (All-append HasHeader l.messages ((sock, msg) ∷ []) h (long, tt))
    ]

pub insert-Present :
    (sock : ℕ) (t : HashTable.Table Message) (m : Message)
    → IsValid t
    → (old : Message) × (HashTable.find sock (HashTable.insert sock m t) ≡ some old)
insert-Present sock t m valid =
    let f = find-insert sock t valid sock m in
    elim (Option-cases (HashTable.find sock t)) [
      | inl gone ↦ (m, f ∙ rw (==_refl sock, gone))
      | inr (old, e) ↦ (old, f ∙ rw (==_refl sock, e))
    ]

module _ {S : Type 0} (sock : ℕ) where
  packages-IsSound :
      (s : Server S) (msg : Message)
      → IsSound s
      → 4 ≤ length msg.buffer
      → IsSound (record s { packages = (PackageList.add_msg msg sock s.packages).0 })
  packages-IsSound s msg v long = record {
    receives = v.receives;
    sends = v.sends;
    queue = PackageList.Laws.add_msg-IsValid msg sock s.packages v.queue;
    whole = All-add_msg msg sock s.packages long v.whole;
    partial = v.partial;
    unsent = v.unsent;
    times = v.times;
    closes = v.closes;
  }

  -- another receive table
  table-IsSound :
      (s : Server S) (t : HashTable.Table Message) (w : S)
      → IsSound s
      → IsValid t
      → Holds InProgress t
      → IsSound (record s { recv_list = t; world = w })
  table-IsSound s t w v valid h = record {
    receives = valid;
    sends = v.sends;
    queue = v.queue;
    whole = v.whole;
    partial = h;
    unsent = v.unsent;
    times = v.times;
    closes = v.closes;
  }

  pub insert-IsSound :
      (s : Server S) (m : Message)
      → IsSound s
      → InProgress m
      → IsSound (record s { recv_list = HashTable.insert sock m s.recv_list })
  insert-IsSound s m v p =
      table-IsSound s (HashTable.insert sock m s.recv_list) s.world v
        (insert-IsValid sock s.recv_list v.receives m)
        (Holds-insert InProgress sock m s.recv_list v.receives v.partial p)

  -- A packet stands in the receive table.
  abbrev pub Present : Server S → Type 0
  Present s = (old : Message) × (HashTable.find sock s.recv_list ≡ some old)

  pub update-IsSound :
      (s : Server S) (m : Message) (w : S)
      → IsSound s
      → Present s
      → InProgress m
      → let s' = record s { recv_list = HashTable.update_value sock m s.recv_list; world = w } in
        IsSound s' × Present s'
  update-IsSound s m w v (old, here) p = (
    table-IsSound s (HashTable.update_value sock m s.recv_list) w v
        (update_value-IsValid sock s.recv_list v.receives m)
        (Holds-update_value InProgress sock m old s.recv_list v.receives here v.partial p),
    (m, find-update_value sock s.recv_list v.receives sock m old here ∙ rw (==_refl sock)),
  )

  -- What `finish` leaves.
  abbrev pub Finished : Message × Server S × Bool → Type 0
  Finished (m, s, true) = IsSound s × InProgress m × Present s
  Finished (m, s, false) = IsSound s × InProgress m

  pub finish-IsSound :
      (msg : Message) (s : Server S)
      → IsSound s
      → InProgress msg
      → 4 ≤ length msg.buffer
      → Returns (finish sock msg s) Finished
  unfolding finish
  finish-IsSound msg s v p long =
      let v1 = forget-IsSound s v sock in
      elim (Bool-cases (PackageList.add_msg msg sock s.packages).1) [
        | inr full ↦ ((msg, forget sock s, false), rw full, (v1, p))
        | inl room ↦
            let s2 = record (forget sock s) {
              packages = (PackageList.add_msg msg sock s.packages).0;
            } in
            let s3 = update_connect_time sock s2 in
            let v3 =
              update_connect_time-IsSound s2 (packages-IsSound (forget sock s) msg v1 long) sock in
            let (fresh, made, q) = new-InProgress in
            (
              (fresh, record s3 { recv_list = HashTable.insert sock fresh s3.recv_list }, true),
              rw (room, made),
              (insert-IsSound s3 fresh v3 q, q, insert-Present sock s3.recv_list fresh v3.receives),
            )
      ]
