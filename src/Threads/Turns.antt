-- ===== src/Threads/Turns.antt =====
-- net_server.cpp, server.cpp and net_packdeal.cpp: one turn of the server, from the bytes of an event
-- to the end of the queue.
use pserver.Prelude.{
  ℕ, ◌+◌, ◌*◌, ◌≤◌, ◌<◌, ◌≡◌, refl, sym, ap, subst, ◌∙◌, ◌≢◌, true, false, List, [], ◌++◌, map,
  Option, none, some, arith, length, length-map, All, Returns,
}
use mathlib.Core.List.{flatten}
use pserver.HashTable
use pserver.Kernel.{
  Kernel, TakesAtMost, TakesPart, SendLaws, StreamLaws, DrainLaws, OpenLaws, PeerLaws, Events,
  ctl_mod, eagain,
}
use pserver.Message.Padding.{receiving}
use pserver.Server.{Server, max_conn, is_negative, epoll_in}
use pserver.Server.Cutting.{frames-few}
use pserver.Server.Poll.{on_event}
use pserver.Server.Outbox.{waiting_length}
use pserver.Server.Reading.{Holding, on_event-Reads}
use pserver.Server.Reassembly.{IsFrame, IsPartial}
use pserver.Server.Sound.{IsSound}
use pserver.Server.Sound.Closing.{world-IsSound}
use pserver.Server.Sound.Polling.{Kept, on_event-Kept}
use pserver.Threads.{PServer, is_running}
use pserver.Threads.Answering.{output}
use pserver.Threads.Draining.{rounds}
use pserver.Threads.Handling.{Registered}
use pserver.Threads.Response.{response, logged}
use pserver.Threads.Serving.{Able, rounds_served}

module _ {S : Type 0} (k : Kernel S) (sock : ℕ) (more : List ℕ → S → S) where
  abbrev answer_all : PServer S → Option (Option (Server S)) → Option (PServer S)
  answer_all p none = none
  answer_all p (some none) = none
  answer_all p (some (some s)) = rounds k (length s.packages.messages) (record p { sockets = s })

  -- The peer sends `bytes`, the network thread is told of them, and the handler thread comes to the end
  -- of the queue.
  unfoldable pub turn : ℕ → List ℕ → PServer S → Option (PServer S)
  turn fuel bytes p =
      answer_all p
        (on_event k fuel (sock, epoll_in) (record p.sockets { world = more bytes p.sockets.world }))

  module _ (stream out : S → List ℕ) (takes : TakesAtMost k) (sends : SendLaws k sock out)
      (reads : StreamLaws k sock stream) (drain : DrainLaws k sock stream)
      (open_ : OpenLaws k sock out) (peer : PeerLaws k sock stream out more)
      (keeps : (bytes : List ℕ) (w : S)
        → TakesPart (k.send sock bytes w).0 bytes
        → k.errno (k.send sock bytes w).1 ≡ eagain) where
    -- Between two turns: the bytes `h` of a packet are there, and nothing else is to be read or dealt with.
    pub record Idle (h : List ℕ) (p : PServer S) : Type 0 where
      pub sound : IsSound p.sockets
      pub registered : Registered k p
      pub on : is_running p ≡ true
      pub connected : p.sockets.listen_sock ≢ sock
      pub empty : p.sockets.packages.messages ≡ []
      pub holds : Holding (HashTable.find sock p.sockets.recv_list) h
      pub read : stream p.sockets.world ≡ []
      pub partial : IsPartial h

    -- The other connections, and what no call on this one changes in the world.
    abbrev pub Beside : Server S → Server S → Type 0
    Beside s s' =
        (s'.listen_sock ≡ s.listen_sock)
        × ((j : ℕ) → j ≢ sock → HashTable.find j s'.recv_list ≡ HashTable.find j s.recv_list)
        × ((j : ℕ) → j ≢ sock → HashTable.find j s'.send_list ≡ HashTable.find j s.send_list)
        × ((f : S → List ℕ)
            → ((n : ℕ) (w : S) → f (k.recv sock n w).1 ≡ f w)
            → ((bytes : List ℕ) (w : S) → f (k.send sock bytes w).1 ≡ f w)
            → ((events : Events) (w : S) → f (k.epoll_ctl ctl_mod sock events w).1 ≡ f w)
            → ((bytes : List ℕ) (w : S) → f (more bytes w) ≡ f w)
            → f s'.world ≡ f s.world)

    -- What the packets `fs` do to the socket and the log.
    pub record Turned (p : PServer S) (fs : List (List ℕ)) (p' : PServer S) : Type 0 where
      pub moved :
          output k sock out p'.sockets ≡ output k sock out p.sockets ++ flatten (map response fs)
      pub said : p'.sockets.entries ≡ p.sockets.entries ++ flatten (map (logged sock) fs)
      pub few :
          waiting_length (HashTable.find sock p'.sockets.send_list)
          ≤ waiting_length (HashTable.find sock p.sockets.send_list) + 28 * length fs
      pub beside : Beside p.sockets p'.sockets

    abbrev pub RoomFor : PServer S → List (List ℕ) → Type 0
    RoomFor p fs =
        waiting_length (HashTable.find sock p.sockets.send_list) + 28 * length fs < 0xffff

    pub turn_lem :
        (fuel : ℕ) (h bytes : List ℕ) (p : PServer S) (fs : List (List ℕ)) (rest : List ℕ)
        → sock < max_conn
        → Idle h p
        → length bytes ≤ 800
        → length bytes < fuel
        → h ++ bytes ≡ flatten fs ++ rest
        → All IsFrame fs
        → IsPartial rest
        → RoomFor p fs
        → Returns (turn fuel bytes p) λ p'. Idle rest p' × Turned p fs p'
    unfolding turn is_running
    turn_lem fuel h bytes p fs rest small v short enough e frames part room =
        let w = more bytes p.sockets.world in
        let s : Server S = record p.sockets { world = w } in
        let arrived : stream w ≡ bytes =
          peer.more_stream bytes p.sockets.world ∙ ap (λ l. l ++ bytes) v.read in
        let few = frames-few fs h bytes rest v.partial frames e short in
        let (s1, got, did) =
          on_event-Reads k sock stream out drain open_ reads fuel s h fs rest small v.connected
            (omega (arith, ap length arrived)) (ap (◌++◌ h) arrived ∙ e) v.partial frames part
            (rw v.empty (omega (arith, few))) v.sound.receives v.holds in
        let sound =
          subst Kept got
            (on_event-Kept k takes fuel (sock, epoll_in) s (world-IsSound p.sockets v.sound w)) in
        let queued : s1.packages.messages ≡ map (λ f. (sock, receiving f)) fs =
          did.queued ∙ rw v.empty refl in
        let same : HashTable.find sock s1.send_list ≡ HashTable.find sock p.sockets.send_list =
          ap (HashTable.find sock) did.sends in
        let p1 : PServer S = record p { sockets = s1 } in
        let pos : is_negative sock ≡ false = ground arith in
        let able : Able k sock out takes sends pos keeps (length fs) p1 = record {
          sound = sound;
          registered = v.registered;
          on = v.on;
          room = omega (arith, ap waiting_length same, room);
        } in
        let (p2, served, all) =
          rounds_served k sock out takes sends pos keeps fs p1 able frames queued in
        let (table, listens, others, quiet) = all.leaves in
        let count : length s1.packages.messages ≡ length fs =
          ap length queued ∙ length-map (λ f. (sock, receiving f)) fs in
        let before : output k sock out s1 ≡ output k sock out p.sockets =
          rw (did.quiet out open_.recv_quiet, same, peer.more_out bytes p.sockets.world) refl in
        (
          p2,
          rw (got, count) served,
          (
            record {
              sound = all.sound;
              registered = all.registered;
              on = all.on;
              connected = subst (λ l. l ≢ sock) (sym (listens ∙ did.listens)) v.connected;
              empty = all.empty;
              holds =
                  subst (λ o. Holding o rest) (sym (ap (HashTable.find sock) table ∙ did.kept))
                    refl;
              read = quiet stream peer.send_stream (peer.ctl_stream ctl_mod) ∙ did.all;
              partial = part;
            },
            record {
              moved = all.moved ∙ ap (λ o. o ++ flatten (map response fs)) before;
              said = all.said ∙ ap (λ es. es ++ flatten (map (logged sock) fs)) did.silent;
              few = omega (arith, all.few, ap waiting_length same);
              beside = (
                listens ∙ did.listens,
                λ j ne. ap (HashTable.find j) table ∙ did.others j ne,
                λ j ne. others j ne ∙ ap (HashTable.find j) did.sends,
                λ f recv send ctl mine.
                    quiet f send ctl ∙ (did.quiet f recv ∙ mine bytes p.sockets.world),
              );
            },
          ),
        )
