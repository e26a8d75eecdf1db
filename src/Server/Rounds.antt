-- ===== src/Server/Rounds.antt =====
-- net_server.cpp, `OnRecv`: one round of the receive loop, and the rounds together. `stream` is what
-- the peer has sent on the socket and the program has not read.
use pserver.Prelude.{
  ℕ, suc, ◌+◌, ◌-◌, ◌≤◌, ◌<◌, ◌≡◌, refl, true, false, List, [], ◌∷◌, ◌++◌, append-nil, some, arith,
  ltb, ◌==◌, not-ltb, length, count_if,
}
use pserver.HashTable
use pserver.Kernel.{Kernel, got, recv_failed}
use pserver.Message.{Message}
use pserver.Message.Transfer.{count, failed}
use pserver.Message.Padding.{Narrow, target, receiving}
use pserver.Message.Receive.{
  new-receiving, get_length-receiving, recv_done-receiving, recv-receiving, recv-receiving_failed,
}
use pserver.PackageList
use pserver.Server.{Server, update_connect_time}
use pserver.Server.Loop.{ended, forget, recv_loop, close_and_return}

module _ {S : Type 0} (sock : ℕ) where
  -- The server once the bytes of `g` are in the packet of the socket.
  abbrev pub hold : List ℕ → S → Server S → Server S
  hold g world s = record s {
    recv_list = HashTable.update_value sock (receiving g) s.recv_list;
    world = world;
  }

  -- The server once a packet is queued and a new one has taken its place.
  unfoldable pub queue : Message → Server S → Server S
  queue msg s =
      let s' = forget sock s in
      let s'' =
        update_connect_time sock
          (record s' { packages = (PackageList.add_msg msg sock s'.packages).0 }) in
      record s'' { recv_list = HashTable.insert sock (receiving []) s''.recv_list }

module _ {S : Type 0} (k : Kernel S) (sock : ℕ) where
  module _ (fuel : ℕ) (h : List ℕ) (s : Server S) (w' : S) where
    -- No byte comes: the loop ends and the packet keeps what it has.
    pub round_failed :
        Narrow h
        → length h < target h
        → k.recv sock (target h - length h) s.world ≡ (recv_failed, w')
        → recv_loop k (suc fuel) sock (receiving h) s ≡ some (ended failed (hold sock h w' s))
    unfolding recv_loop
    round_failed w lt e = rw (recv-receiving_failed (k.recv sock) s.world w' h w lt e)

    pub round_end :
        Narrow h
        → length h < target h
        → k.recv sock (target h - length h) s.world ≡ (got [], w')
        → recv_loop k (suc fuel) sock (receiving h) s ≡ some (ended (count 0) (hold sock h w' s))
    unfolding recv_loop
    round_end w lt e =
        let r = recv-receiving (k.recv sock) s.world w' h [] (rw append-nil w) lt e (omega arith) in
        rw (r, append-nil) refl

    module _ (b : ℕ) (bytes : List ℕ) (w : Narrow (h ++ b ∷ bytes)) (lt : length h < target h)
        (e : k.recv sock (target h - length h) s.world ≡ (got (b ∷ bytes), w'))
        (le : length h + length (b ∷ bytes) ≤ target h) where
      -- Some bytes come, and the packet is not done.
      pub round_more :
          length (h ++ b ∷ bytes) < target (h ++ b ∷ bytes)
          → recv_loop k (suc fuel) sock (receiving h) s
            ≡ recv_loop k fuel sock (receiving (h ++ b ∷ bytes)) (hold sock (h ++ b ∷ bytes) w' s)
      unfolding recv_loop
      round_more more =
          let g = h ++ b ∷ bytes in
          let (n, len, low, high, exact) = get_length-receiving g w in
          let open_ : (length g == target g) ≡ false = ground arith in
          rw (
            recv-receiving (k.recv sock) s.world w' h (b ∷ bytes) w lt e le,
            len,
            recv_done-receiving g w,
            not-ltb 0xffff n high,
            open_,
          )

      module _ (all : length (h ++ b ∷ bytes) ≡ target (h ++ b ∷ bytes)) where
        -- The packet is done and the queue takes it.
        pub round_queued :
            let g = h ++ b ∷ bytes in
            ltb 200 (count_if (PackageList.msg_equal sock) s.packages.messages) ≡ false
            → recv_loop k (suc fuel) sock (receiving h) s
              ≡ recv_loop k fuel sock (receiving []) (queue sock (receiving g) (hold sock g w' s))
        unfolding recv_loop queue PackageList.add_msg
        round_queued room =
            let g = h ++ b ∷ bytes in
            let (n, len, low, high, exact) = get_length-receiving g w in
            let full : (length g == target g) ≡ true = ground arith in
            rw (
              recv-receiving (k.recv sock) s.world w' h (b ∷ bytes) w lt e le,
              len,
              recv_done-receiving g w,
              not-ltb 0xffff n high,
              full,
              room,
              new-receiving,
            )

        -- The packet is done and the queue is full for the socket.
        pub round_refused :
            let g = h ++ b ∷ bytes in
            ltb 200 (count_if (PackageList.msg_equal sock) s.packages.messages) ≡ true
            → recv_loop k (suc fuel) sock (receiving h) s
              ≡ close_and_return k sock (forget sock (hold sock g w' s))
        unfolding recv_loop PackageList.add_msg
        round_refused full_queue =
            let g = h ++ b ∷ bytes in
            let (n, len, low, high, exact) = get_length-receiving g w in
            let full : (length g == target g) ≡ true = ground arith in
            rw (
              recv-receiving (k.recv sock) s.world w' h (b ∷ bytes) w lt e le,
              len,
              recv_done-receiving g w,
              not-ltb 0xffff n high,
              full,
              full_queue,
            )
