-- ===== src/Server/Reading.antt =====
-- net_server.cpp, `OnRecv` and its event: all that a peer has sent is read, and its connection stays.
use pserver.Prelude.{
  ℕ, ◌+◌, ◌≤◌, ◌<◌, ◌≡◌, refl, sym, ap, subst, ◌∙◌, ◌≢◌, inl, inr, List, [], ◌++◌, map, ==_refl,
  ==_ne, Option, none, some, arith, leb, length, count_if, All, Option-cases, false, ◌||◌,
}
use mathlib.Core.List.{flatten}
use pserver.HashTable
use pserver.HashTable.Laws.{IsValid, find-insert, insert-IsValid}
use pserver.Kernel.{Kernel, StreamLaws, DrainLaws, OpenLaws}
use pserver.Message
use pserver.Message.{Message}
use pserver.Message.Padding.{receiving}
use pserver.Message.Receive.{new-receiving}
use pserver.PackageList
use pserver.Server.{Server, max_conn, is_negative, epoll_in}
use pserver.Server.Loop.{Loop, ended, recv_loop, after_loop, on_recv}
use pserver.Server.Poll.{on_event}
use pserver.Server.Reassembly.{IsFrame, IsPartial}
use pserver.Server.Framing.{Drained, recv_loop-Drained}
use pserver.Server.Persisting.{recv_loop-kept}

-- The bytes `h` are in the packet of a socket: it has none before the first.
abbrev pub Holding : Option Message → List ℕ → Type 0
Holding none h = h ≡ []
Holding (some m) h = m ≡ receiving h

module _ {S : Type 0} (k : Kernel S) (sock : ℕ) (stream out : S → List ℕ)
    (drain : DrainLaws k sock stream) (open_ : OpenLaws k sock out) where
  -- The packets are at the end of the queue, the rest is in the socket's packet, and nothing was sent.
  pub record Reads (s : Server S) (gs : List (List ℕ)) (tail : List ℕ) (s' : Server S)
      : Type 0 where
    pub queued : s'.packages.messages ≡ s.packages.messages ++ map (λ f. (sock, receiving f)) gs
    pub kept : HashTable.find sock s'.recv_list ≡ some (receiving tail)
    pub sends : s'.send_list ≡ s.send_list
    pub listens : s'.listen_sock ≡ s.listen_sock
    pub silent : s'.entries ≡ s.entries
    pub others : (j : ℕ) → j ≢ sock → HashTable.find j s'.recv_list ≡ HashTable.find j s.recv_list
    pub quiet :
        (f : S → List ℕ) → ((n : ℕ) (w : S) → f (k.recv sock n w).1 ≡ f w) → f s'.world ≡ f s.world
    pub all : stream s'.world ≡ []

  after-Reads :
      (fuel : ℕ) (s : Server S) (h : List ℕ) (gs : List (List ℕ)) (tail : List ℕ)
      → Drained k sock stream drain s h gs tail (recv_loop k fuel sock (receiving h) s)
      → (s' : Server S) × (l : Loop S) × (recv_loop k fuel sock (receiving h) s ≡ some l)
        × (after_loop k sock l ≡ some (some s'))
        × Reads s gs tail s'
  unfolding after_loop
  after-Reads fuel s h gs tail (d, same, left, all) = (
    d.after,
    ended d.ret d.after,
    d.result,
    ended_open,
    record {
      queued =
          d.delivers.queued
          ∙ ap (λ l. s.packages.messages ++ map (λ f. (sock, receiving f)) l) same;
      kept = d.kept ∙ ap (λ l. some (receiving l)) left;
      sends = d.delivers.sends;
      listens = (same_world out open_.recv_quiet).0;
      silent = (same_world out open_.recv_quiet).1;
      others = d.delivers.others;
      quiet = λ f keeps. (same_world f keeps).2;
      all = all;
    },
  )
    where
      same_world :
          (f : S → List ℕ)
          → ((n : ℕ) (w : S) → f (k.recv sock n w).1 ≡ f w)
          → (d.after.listen_sock ≡ s.listen_sock)
            × (d.after.entries ≡ s.entries)
            × (f d.after.world ≡ f s.world)
      same_world f keeps =
          recv_loop-kept k sock
            (λ l w. (l.0 ≡ s.listen_sock) × (l.1 ≡ s.entries) × (f w ≡ f s.world))
            (λ l n w e. (e.0, e.1, keeps n w ∙ e.2)) fuel (receiving h) s d.after d.ret d.result
            (refl, refl, refl)

      ended_open : after_loop k sock (ended d.ret d.after) ≡ some (some d.after)
      ended_open = elim d.no_bytes [
        | inl (e, r) ↦ rw (e, open_.recv_again d.asked d.from d.after.world r)
        | inr (e, r) ↦ absurd (open_.recv_open d.asked d.from d.after.world d.wanted r)
      ]

  module _ (laws : StreamLaws k sock stream) where
    loop-Reads :
        (fuel : ℕ) (s : Server S) (h : List ℕ) (gs : List (List ℕ)) (tail : List ℕ)
        → length (stream s.world) < fuel
        → h ++ stream s.world ≡ flatten gs ++ tail
        → IsPartial h
        → All IsFrame gs
        → IsPartial tail
        → count_if (PackageList.msg_equal sock) s.packages.messages + length gs ≤ 201
        → IsValid s.recv_list
        → HashTable.find sock s.recv_list ≡ some (receiving h)
        → (s' : Server S) × (l : Loop S) × (recv_loop k fuel sock (receiving h) s ≡ some l)
          × (after_loop k sock l ≡ some (some s'))
          × Reads s gs tail s'
    loop-Reads fuel s h gs tail enough e q frames p room valid present =
        after-Reads fuel s h gs tail (
          recv_loop-Drained k sock stream drain laws fuel s h gs tail enough e q frames p room valid
            present)

    pub on_recv-Reads :
        (fuel : ℕ) (s : Server S) (h : List ℕ) (gs : List (List ℕ)) (tail : List ℕ)
        → sock < max_conn
        → length (stream s.world) < fuel
        → h ++ stream s.world ≡ flatten gs ++ tail
        → IsPartial h
        → All IsFrame gs
        → IsPartial tail
        → count_if (PackageList.msg_equal sock) s.packages.messages + length gs ≤ 201
        → IsValid s.recv_list
        → Holding (HashTable.find sock s.recv_list) h
        → (s' : Server S) × (on_recv k fuel sock s ≡ some (some s')) × Reads s gs tail s'
    unfolding on_recv
    on_recv-Reads fuel s h gs tail small enough e q frames p room valid held =
        let within : is_negative sock || leb max_conn sock ≡ false = ground arith in
        elim (Option-cases (HashTable.find sock s.recv_list)) [
          | inr (m, f) ↦
              let same : m ≡ receiving h = subst (λ o. Holding o h) f held in
              let (s', l, ended_, open', reads) =
                loop-Reads fuel s h gs tail enough e q frames p room valid (f ∙ ap some same) in
              (s', rw (within, f, same, ended_) open', reads)
          | inl f ↦
              let none_yet : h ≡ [] = subst (λ o. Holding o h) f held in
              let fresh : Message.new ≡ some (receiving h) =
                new-receiving ∙ ap (λ b. some (receiving b)) (sym none_yet) in
              let s1 : Server S = record s {
                recv_list = HashTable.insert sock (receiving h) s.recv_list;
              } in
              let present : HashTable.find sock s1.recv_list ≡ some (receiving h) =
                find-insert sock s.recv_list valid sock (receiving h) ∙ rw (==_refl sock, f) in
              let (s', l, ended_, open', reads) =
                loop-Reads fuel s1 h gs tail enough e q frames p room
                  (insert-IsValid sock s.recv_list valid (receiving h)) present in
              (
                s',
                rw (within, f, fresh, ended_) open',
                record {
                  queued = reads.queued;
                  kept = reads.kept;
                  sends = reads.sends;
                  listens = reads.listens;
                  silent = reads.silent;
                  others = λ j ne.
                      reads.others j ne
                      ∙ (find-insert sock s.recv_list valid j (receiving h) ∙ rw (==_ne sock j ne));
                  quiet = reads.quiet;
                  all = reads.all;
                },
              )
        ]

    -- `EPOLLIN` on a connection.
    pub on_event-Reads :
        (fuel : ℕ) (s : Server S) (h : List ℕ) (gs : List (List ℕ)) (tail : List ℕ)
        → sock < max_conn
        → s.listen_sock ≢ sock
        → length (stream s.world) < fuel
        → h ++ stream s.world ≡ flatten gs ++ tail
        → IsPartial h
        → All IsFrame gs
        → IsPartial tail
        → count_if (PackageList.msg_equal sock) s.packages.messages + length gs ≤ 201
        → IsValid s.recv_list
        → Holding (HashTable.find sock s.recv_list) h
        → (s' : Server S) × (on_event k fuel (sock, epoll_in) s ≡ some (some s'))
          × Reads s gs tail s'
    unfolding on_event
    on_event-Reads fuel s h gs tail small ne enough e q frames p room valid held =
        let (s', r, reads) =
          on_recv-Reads fuel s h gs tail small enough e q frames p room valid held in
        (s', rw (==_ne sock s.listen_sock ne, r) refl, reads)
