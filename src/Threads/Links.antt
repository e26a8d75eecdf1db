-- ===== src/Threads/Links.antt =====
-- net_server.cpp and server.cpp: one connection of many, before and after a turn.
use pserver.Prelude.{
  ℕ, ◌+◌, ◌*◌, ◌≤◌, ◌<◌, ◌≡◌, refl, sym, ap, subst, ◌∙◌, ◌≢◌, ==_refl, ==_ne, true, List, [], ◌∷◌,
  ◌++◌, append-nil, append_assoc, map, arith, length, length-append, All, All-split, Returns,
}
use mathlib.Core.List.{flatten}
use pserver.HashTable
use pserver.Kernel.{Kernel, TakesPart, eagain}
use pserver.Server.{max_conn}
use pserver.Server.Cutting.{cut}
use pserver.Server.Outbox.{waiting_length}
use pserver.Server.Reading.{Holding}
use pserver.Server.Reassembly.{IsFrame, IsPartial}
use pserver.Server.Sound.{IsSound}
use pserver.Threads.{PServer, is_running}
use pserver.Threads.Answering.{output}
use pserver.Threads.Handling.{Registered}
use pserver.Threads.Response.{response}
use pserver.Threads.Turns.{turn, Turned, turn_lem}
use pserver.Threads.Network.{bytes_of, NetworkLaws}

module _ {S : Type 0} (k : Kernel S) (more : ℕ → List ℕ → S → S) where
  module _ (stream out : ℕ → S → List ℕ) (laws : NetworkLaws k more stream out)
      (keeps : (sock : ℕ) (bytes : List ℕ) (w : S)
        → TakesPart (k.send sock bytes w).0 bytes
        → k.errno (k.send sock bytes w).1 ≡ eagain) where
    -- Between two turns.
    pub record Ready (p : PServer S) : Type 0 where
      pub sound : IsSound p.sockets
      pub registered : Registered k p
      pub on : is_running p ≡ true
      pub empty : p.sockets.packages.messages ≡ []

    -- The connection `j`: the bytes `h` of a packet are there, and with what the peer will send in `cs`
    -- they are the packets `gs` and a part of another.
    pub record Link (j : ℕ) (p : PServer S) (cs : List (ℕ × List ℕ)) : Type 0 where
      pub h : List ℕ
      pub gs : List (List ℕ)
      pub tail : List ℕ
      pub holds : Holding (HashTable.find j p.sockets.recv_list) h
      pub read : stream j p.sockets.world ≡ []
      pub begun : IsPartial h
      pub split : h ++ bytes_of j cs ≡ flatten gs ++ tail
      pub frames : All IsFrame gs
      pub part : IsPartial tail
      pub room : waiting_length (HashTable.find j p.sockets.send_list) + 28 * length gs < 0xffff

    -- A piece that the server takes in one turn.
    abbrev pub IsPiece : ℕ → ℕ × List ℕ → Type 0
    IsPiece listen (sock, bytes) = (sock < max_conn) × (listen ≢ sock) × (length bytes ≤ 800)

    -- A connection after a turn: what of its packets the turn has served.
    pub record Next (j : ℕ) (p p1 : PServer S) (cs cs1 : List (ℕ × List ℕ)) (x : Link j p cs)
        : Type 0 where
      pub link : Link j p1 cs1
      pub front : List (List ℕ)
      pub same : x.gs ≡ front ++ link.gs
      pub tails : link.tail ≡ x.tail
      pub moved :
          output k j (out j) p1.sockets
          ≡ output k j (out j) p.sockets ++ flatten (map response front)

    abbrev pub TurnedAt : (sock : ℕ) → PServer S → List (List ℕ) → PServer S → Type 0
    TurnedAt sock p fs p' =
        Turned k sock (more sock) (stream sock) (out sock) laws.takes (laws.sends sock)
          (laws.reads sock) (laws.drain sock) (laws.opens sock) (laws.peers sock) (keeps sock) p fs
          p'

    -- A turn of another socket serves nothing of `j` and leaves it as it was.
    pub Next-other :
        (j sock : ℕ) (bytes : List ℕ) (cs : List (ℕ × List ℕ)) (fs : List (List ℕ))
        (p p1 : PServer S)
        → j ≢ sock
        → TurnedAt sock p fs p1
        → (x : Link j p ((sock, bytes) ∷ cs)) → Next j p p1 ((sock, bytes) ∷ cs) cs x
    unfolding flatten
    Next-other j sock bytes cs fs p p1 ne did x =
        let (listens, recvs, sends, world) = did.beside in
        let a = laws.streams_apart j sock ne in
        let b = laws.outs_apart j sock ne in
        let quiet = world (stream j) a.recv_apart a.send_apart a.ctl_apart a.more_apart in
        let silent = world (out j) b.recv_apart b.send_apart b.ctl_apart b.more_apart in
        record {
          link = record {
            h = x.h;
            gs = x.gs;
            tail = x.tail;
            holds = subst (λ o. Holding o x.h) (sym (recvs j ne)) x.holds;
            read = quiet ∙ x.read;
            begun = x.begun;
            split = ap (◌++◌ x.h) (rw (==_ne sock j ne) refl) ∙ x.split;
            frames = x.frames;
            part = x.part;
            room = omega (arith, x.room, ap waiting_length (sends j ne));
          };
          front = [];
          same = refl;
          tails = refl;
          moved = rw (silent, sends j ne) (sym (append-nil (output k j (out j) p.sockets)));
        }

    -- A turn of `j` itself serves the packets that its bytes complete.
    pub same_turn :
        (sock fuel : ℕ) (bytes : List ℕ) (cs : List (ℕ × List ℕ)) (p : PServer S)
        → Ready p
        → IsPiece p.sockets.listen_sock (sock, bytes)
        → 800 < fuel
        → (x : Link sock p ((sock, bytes) ∷ cs))
        → Returns (turn k sock (more sock) fuel bytes p) λ p1.
          Ready p1
          × Next sock p p1 ((sock, bytes) ∷ cs) cs x
          × ((fs : List (List ℕ)) × TurnedAt sock p fs p1)
    same_turn sock fuel bytes cs p v (small, ne, short) enough x =
        let all : x.h ++ (bytes ++ bytes_of sock cs) ≡ flatten x.gs ++ x.tail =
          ap (◌++◌ x.h) (sym (rw (==_refl sock) refl)) ∙ x.split in
        let c =
          cut x.gs x.tail (x.h ++ bytes) (bytes_of sock cs) x.frames x.part
            (append_assoc x.h bytes (bytes_of sock cs) ∙ all) in
        let (front, back) =
          All-split IsFrame c.front c.back (subst (All IsFrame) c.same x.frames) in
        let count : length x.gs ≡ length c.front + length c.back =
          ap length c.same ∙ length-append c.front c.back in
        let (p1, ends, (idle, did)) =
          turn_lem k sock (more sock) (stream sock) (out sock) laws.takes (laws.sends sock)
            (laws.reads sock) (laws.drain sock) (laws.opens sock) (laws.peers sock) (keeps sock)
            fuel x.h bytes p c.front c.rest small
            (record {
              sound = v.sound;
              registered = v.registered;
              on = v.on;
              connected = ne;
              empty = v.empty;
              holds = x.holds;
              read = x.read;
              partial = x.begun;
            })
            short (omega (arith, short)) c.before front c.partial (omega (arith, x.room, count)) in
        (
          p1,
          ends,
          (
            record {
              sound = idle.sound;
              registered = idle.registered;
              on = idle.on;
              empty = idle.empty;
            },
            record {
              link = record {
                h = c.rest;
                gs = c.back;
                tail = x.tail;
                holds = idle.holds;
                read = idle.read;
                begun = c.partial;
                split = c.after;
                frames = back;
                part = x.part;
                room = omega (arith, x.room, count, did.few);
              };
              front = c.front;
              same = c.same;
              tails = refl;
              moved = did.moved;
            },
            (c.front, did),
          ),
        )
