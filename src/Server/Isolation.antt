-- ===== src/Server/Isolation.antt =====
-- net_server.cpp: what happens on one socket leaves the packets of every other socket alone.
pub mod Polling
pub mod Answers
pub mod Pieces
use pserver.Prelude.{
  ℕ, zero, suc, ◌^◌, ◌≡◌, refl, sym, ap, subst, ◌∙◌, ◌≢◌, inl, inr, Bool, true, false, List, [],
  ◌∷◌, ◌++◌, ◌||◌, Option, none, some, arith, leb, ltb, ◌==◌, if◌then◌else◌, Bool-cases, ==_ne,
  Option-cases, append-nil, append_assoc, count_if,
}
use pserver.HashTable
use pserver.HashTable.Laws.{IsValid, find-insert, find-erase, find-update_value, erase-IsValid}
use pserver.Kernel.{Kernel}
use pserver.Message
use pserver.Message.{Message}
use pserver.Message.Progress.{InProgress, recv-InProgress, recv_done-InProgress}
use pserver.Message.Transfer.{count}
use pserver.PackageList
use pserver.PackageList.Laws.{of_sock, of_sock-add_msg, of_sock-del_msg}
use pserver.Server.{Server, update_connect_time, close_connect}
use pserver.Server.Loop.{
  Loop, ended, returned, out_of_fuel, forget, finish, recv_loop, close_and_return,
}
use pserver.Server.Sound.{IsSound}
use pserver.Server.Sound.Closing.{forget-IsSound, closed, close_connect-IsSound}
use pserver.Server.Sound.Packets.{Present, Finished, update-IsSound, finish-IsSound}
use pserver.Server.Turns.{held, ends, closes, queues, goes_on, recv_loop-Turn}

-- All that the server keeps for the socket `j`: the packet that comes in, the one that waits to be sent,
-- and its packets in the queue.
abbrev pub Same : {S : Type 0} → ℕ → Server S → Server S → Type 0
Same j s s' =
    (HashTable.find j s'.recv_list ≡ HashTable.find j s.recv_list)
    × (HashTable.find j s'.send_list ≡ HashTable.find j s.send_list)
    × (of_sock j s'.packages.messages ≡ of_sock j s.packages.messages)

module _ {S : Type 0} (j sock : ℕ) (ne : j ≢ sock) where
  pub Same-refl : (s : Server S) → Same j s s
  Same-refl s = (refl, refl, refl)

  pub Same-trans : (s s1 s2 : Server S) → Same j s s1 → Same j s1 s2 → Same j s s2
  Same-trans s s1 s2 (a, b, c) (a', b', c') = (a' ∙ a, b' ∙ b, c' ∙ c)

  pub Same-forget : (s : Server S) → IsSound s → Same j s (forget sock s)
  Same-forget s v = (find-erase sock s.recv_list v.receives j ∙ rw (==_ne sock j ne), refl, refl)

  pub Same-insert :
      (s : Server S) (m : Message)
      → IsSound s
      → Same j s (record s { recv_list = HashTable.insert sock m s.recv_list })
  Same-insert s m v =
      (find-insert sock s.recv_list v.receives j m ∙ rw (==_ne sock j ne), refl, refl)

  pub Same-held :
      (k : Kernel S) (s : Server S) (m : Message) (w : S)
      → IsSound s
      → Present sock s
      → Same j s (held k sock m w s)
  Same-held k s m w v (old, e) =
      (find-update_value sock s.recv_list v.receives j m old e ∙ rw (==_ne sock j ne), refl, refl)

  Same-queued :
      (s : Server S) (msg fresh : Message)
      → IsSound s
      → let s1 =
          update_connect_time sock
            (record (forget sock s) { packages = (PackageList.add_msg msg sock s.packages).0 }) in
        Same j s (record s1 { recv_list = HashTable.insert sock fresh s1.recv_list })
  unfolding update_connect_time
  Same-queued s msg fresh v =
      let gone = erase-IsValid sock s.recv_list v.receives in
      let found : HashTable.find j (HashTable.insert sock fresh (forget sock s).recv_list)
          ≡ HashTable.find j s.recv_list =
        find-insert sock (forget sock s).recv_list gone j fresh
        ∙ rw (==_ne sock j ne) (Same-forget s v).0 in
      let queued = of_sock-add_msg sock j msg s.packages ne in
      elim (Bool-cases (leb (2 ^ 31) sock || ltb 4096 sock)) [
        | inl out ↦ rw out (found, refl, queued)
        | inr within ↦ rw within (found, refl, queued)
      ]

  pub Same-finish :
      (m m' : Message) (s s' : Server S) (taken : Bool)
      → IsSound s
      → finish sock m s ≡ some (m', s', taken)
      → Same j s s'
  unfolding finish
  Same-finish m m' s s' taken v e = elim (Bool-cases (PackageList.add_msg m sock s.packages).1) [
    | inr full ↦
        subst (Same j s) {x = forget sock s} {y = s'} (ground (arith, e, full)) (Same-forget s v)
    | inl room ↦ elim (Option-cases Message.new) [
      | inl f ↦ absurd (ground (arith, e, f, room))
      | inr (fresh, f) ↦
          let s1 =
            update_connect_time sock
              (record (forget sock s) { packages = (PackageList.add_msg m sock s.packages).0 }) in
          subst (Same j s) {x = record s1 { recv_list = HashTable.insert sock fresh s1.recv_list }}
            {y = s'} (ground (arith, e, f, room)) (Same-queued s m fresh v)
    ]
  ]

  pub Same-close_connect :
      (k : Kernel S) (s s' : Server S) → IsSound s → close_connect k sock s ≡ some s' → Same j s s'
  unfolding close_connect
  Same-close_connect k s s' v e = elim (Option-cases s.on_close) [
    | inl none' ↦ absurd (ground (arith, e))
    | inr (fun, f) ↦
        let list : s'.recv_list ≡ s.recv_list = ground (arith, e, f) in
        let sends : s'.send_list ≡ (HashTable.erase sock s.send_list).0 = ground (arith, e, f) in
        let queue : s'.packages ≡ PackageList.del_msg sock s.packages = ground (arith, e, f) in
        (
          ap (HashTable.find j) list,
          ap (HashTable.find j) sends
              ∙ (find-erase sock s.send_list v.sends j ∙ rw (==_ne sock j ne)),
          ap (λ l. of_sock j l.messages) queue
              ∙ (of_sock-del_msg sock j s.packages ∙ rw (==_ne sock j ne)),
        )
  ]

  module _ (k : Kernel S) where
    abbrev pub SameLoop : Server S → Loop S → Type 0
    SameLoop s (ended ret s') = Same j s s'
    SameLoop s (returned s') = Same j s s'
    SameLoop s out_of_fuel = Unit {0}

    SameLoop-trans : (s s1 : Server S) (l : Loop S) → Same j s s1 → SameLoop s1 l → SameLoop s l
    SameLoop-trans s s1 (ended ret s') a b = Same-trans s s1 s' a b
    SameLoop-trans s s1 (returned s') a b = Same-trans s s1 s' a b
    SameLoop-trans s s1 out_of_fuel a b = tt

    closing-Same :
        (s : Server S) (l : Loop S) → IsSound s → close_and_return k sock s ≡ some l → SameLoop s l
    closing-Same s l v e = elim (Option-cases (close_connect k sock s)) [
      | inl none' ↦ absurd (ground (arith, e))
      | inr (s', f) ↦
          subst (SameLoop s) {x = returned s'} (ground (arith, e)) (Same-close_connect k s s' v f)
    ]

    pub recv_loop-Same :
        (fuel : ℕ) (msg : Message) (s : Server S) (l : Loop S)
        → IsSound s
        → Present sock s
        → InProgress msg
        → recv_loop k fuel sock msg s ≡ some l
        → SameLoop s l
    unfolding recv_loop
    recv_loop-Same zero msg s l v here p e =
        subst (SameLoop s) {x = out_of_fuel} (ground (arith, e)) tt
    recv_loop-Same (suc fuel) msg s l v here p e = elim (recv_loop-Turn k sock fuel msg s l e) [
      | ends m ret w r f ↦
          subst (SameLoop s) {x = ended ret (held k sock m w s)} (sym f) (Same-held k s m w v here)
      | closes m n w r f ↦
          let q = recv-InProgress (k.recv sock) msg m (count (suc n)) s.world w p r in
          let s1 = held k sock m w s in
          let (v1, _) = update-IsSound sock s m w v here q in
          let gone =
            Same-trans s s1 (forget sock s1) (Same-held k s m w v here) (Same-forget s1 v1) in
          SameLoop-trans s (forget sock s1) l gone
            (closing-Same (forget sock s1) l (forget-IsSound s1 v1 sock) f)
      | queues m fresh n w s' r whole f g ↦
          let q = recv-InProgress (k.recv sock) msg m (count (suc n)) s.world w p r in
          let s1 = held k sock m w s in
          let (v1, _) = update-IsSound sock s m w v here q in
          let (out, made, ok) = finish-IsSound sock m s1 v1 q (recv_done-InProgress m q whole) in
          let (v2, q2, here2) =
            subst (Finished sock) {x = out} {y = (fresh, s', true)} (ground (arith, made, f)) ok in
          let done =
            Same-trans s s1 s' (Same-held k s m w v here) (Same-finish m fresh s1 s' true v1 f) in
          SameLoop-trans s s' l done (recv_loop-Same fuel fresh s' l v2 here2 q2 g)
      | goes_on m n w r g ↦
          let q = recv-InProgress (k.recv sock) msg m (count (suc n)) s.world w p r in
          let s1 = held k sock m w s in
          let (v1, here1) = update-IsSound sock s m w v here q in
          SameLoop-trans s s1 l (Same-held k s m w v here) (recv_loop-Same fuel m s1 l v1 here1 q g)
    ]
