-- ===== src/Server/Sound/Receiving.antt =====
-- net_server.cpp, `OnRecv`: whatever bytes come, the receive loop keeps the server sound.
use pserver.Prelude.{sym, ℕ, zero, suc, ◌≡◌, subst, inl, inr, true, some, arith, Option-cases}
use pserver.Kernel.{Kernel}
use pserver.Message.{Message}
use pserver.Message.Progress.{InProgress, recv-InProgress, recv_done-InProgress}
use pserver.Message.Transfer.{count}
use pserver.Server.{Server, close_connect}
use pserver.Server.Loop.{Loop, ended, returned, out_of_fuel, forget, recv_loop, close_and_return}
use pserver.Server.Sound.{IsSound}
use pserver.Server.Sound.Closing.{forget-IsSound, close_connect-IsSound}
use pserver.Server.Turns.{held, ends, closes, queues, goes_on, recv_loop-Turn}
use pserver.Server.Sound.Packets.{Present, Finished, update-IsSound, finish-IsSound}

module _ {S : Type 0} (k : Kernel S) (sock : ℕ) where
  abbrev pub SoundLoop : Loop S → Type 0
  SoundLoop (ended ret s) = IsSound s
  SoundLoop (returned s) = IsSound s
  SoundLoop out_of_fuel = Unit {0}

  closing-IsSound :
      (s : Server S) (l : Loop S) → IsSound s → close_and_return k sock s ≡ some l → SoundLoop l
  closing-IsSound s l v e = elim (Option-cases (close_connect k sock s)) [
    | inl none' ↦ absurd (ground (arith, e))
    | inr (s', f) ↦
        subst SoundLoop {x = returned s'} (ground (arith, e))
          (close_connect-IsSound s v k sock s' f)
  ]

  pub recv_loop-IsSound :
      (fuel : ℕ) (msg : Message) (s : Server S) (l : Loop S)
      → IsSound s
      → Present sock s
      → InProgress msg
      → recv_loop k fuel sock msg s ≡ some l
      → SoundLoop l
  unfolding recv_loop
  recv_loop-IsSound zero msg s l v here p e =
      subst SoundLoop {x = out_of_fuel} (ground (arith, e)) tt
  recv_loop-IsSound (suc fuel) msg s l v here p e = elim (recv_loop-Turn k sock fuel msg s l e) [
    | ends m ret w r f ↦
        let q = recv-InProgress (k.recv sock) msg m ret s.world w p r in
        let (v1, _) = update-IsSound sock s m w v here q in
        subst SoundLoop {x = ended ret (held k sock m w s)} (sym f) v1
    | closes m n w r f ↦
        let q = recv-InProgress (k.recv sock) msg m (count (suc n)) s.world w p r in
        let (v1, _) = update-IsSound sock s m w v here q in
        let s1 = held k sock m w s in
        closing-IsSound (forget sock s1) l (forget-IsSound s1 v1 sock) f
    | queues m fresh n w s' r whole f g ↦
        let q = recv-InProgress (k.recv sock) msg m (count (suc n)) s.world w p r in
        let (v1, _) = update-IsSound sock s m w v here q in
        let (out, made, ok) =
          finish-IsSound sock m (held k sock m w s) v1 q (recv_done-InProgress m q whole) in
        let (v2, q2, here2) =
          subst (Finished sock) {x = out} {y = (fresh, s', true)} (ground (arith, made, f)) ok in
        recv_loop-IsSound fuel fresh s' l v2 here2 q2 g
    | goes_on m n w r g ↦
        let q = recv-InProgress (k.recv sock) msg m (count (suc n)) s.world w p r in
        let (v1, here1) = update-IsSound sock s m w v here q in
        recv_loop-IsSound fuel m (held k sock m w s) l v1 here1 q g
  ]
