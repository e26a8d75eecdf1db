-- ===== src/Server/Reassembly.antt =====
-- net_server.cpp, `OnRecv`: the receive loop as a parser of the stream of a socket.
use pserver.Prelude.{
  ℕ, ◌+◌, ◌≤◌, ◌<◌, ◌≡◌, refl, sym, ap, ◌∙◌, ◌≢◌, ◌⊎◌, false, List, [], ◌∷◌, ◌++◌, map,
  append_assoc, Option, none, some, arith, ltb, ==_refl, ==_ne, length, count_if, All,
}
use mathlib.Core.List.{flatten}
use pserver.HashTable
use pserver.HashTable.Laws.{
  IsValid, find-insert, find-erase, find-update_value, insert-IsValid, erase-IsValid,
  update_value-IsValid,
}
use pserver.Kernel.{Kernel, got, recv_failed}
use pserver.Message.{Message}
use pserver.Message.Transfer.{Ret, count, failed}
use pserver.Message.Padding.{Narrow, target, receiving}
use pserver.PackageList
use pserver.Server.{Server, update_connect_time}
use pserver.Server.Loop.{Loop, ended, forget, close_and_return}
use pserver.Server.Rounds.{hold, queue}

-- A whole packet: as long as its header says.
pub record IsFrame (f : List ℕ) : Type 0 where
  pub header : 4 ≤ length f
  pub size : length f ≡ target f
  pub narrow : Narrow f

-- Wherever packets of `input` end, no length field follows that the code cannot handle.
abbrev pub Clean : List ℕ → Type 0
Clean input =
    (fs : List (List ℕ)) (rest : List ℕ) → All IsFrame fs → input ≡ flatten fs ++ rest → Narrow rest

-- The first bytes of a packet, not all of it.
abbrev pub IsPartial : List ℕ → Type 0
IsPartial h = Narrow h × (length h < target h)

pub Clean-Narrow : (input : List ℕ) → Clean input → Narrow input
unfolding flatten
Clean-Narrow input c = c [] input tt refl

pub Clean-tail : (f input : List ℕ) → IsFrame f → Clean (f ++ input) → Clean input
unfolding flatten
Clean-tail f input frame c fs rest all e =
    c (f ∷ fs) rest (frame, all) (ap (◌++◌ f) e ∙ sym (append_assoc f (flatten fs) rest))

module _ {S : Type 0} (sock : ℕ) (stream : S → List ℕ) where
  -- From `s` with `h` in the packet to `s'` the packets `fs` were queued and `rest` is left over:
  -- together they are `h` and the bytes read, and nothing but the queue and the socket's own entries
  -- has changed.
  pub record Delivers (s s' : Server S) (h rest : List ℕ) (fs : List (List ℕ)) : Type 0 where
    pub read : List ℕ
    pub consumed : stream s.world ≡ read ++ stream s'.world
    pub split : h ++ read ≡ flatten fs ++ rest
    pub frames : All IsFrame fs
    pub queued : s'.packages.messages ≡ s.packages.messages ++ map (λ f. (sock, receiving f)) fs
    pub permits : s'.packages.permits ≡ s.packages.permits + length fs
    pub others : (j : ℕ) → j ≢ sock → HashTable.find j s'.recv_list ≡ HashTable.find j s.recv_list
    pub sends : s'.send_list ≡ s.send_list
    pub valid : IsValid s'.recv_list

  -- Both ends of the loop.
  pub record Ended (k : Kernel S) (s : Server S) (h : List ℕ) (r : Option (Loop S)) : Type 0 where
    pub fs : List (List ℕ)
    pub rest : List ℕ
    pub after : Server S
    pub ret : Ret
    pub result : r ≡ some (ended ret after)
    pub asked : ℕ
    pub from : S
    pub wanted : 0 < asked
    pub no_bytes :
        ((ret ≡ failed) × (k.recv sock asked from ≡ (recv_failed, after.world)))
        ⊎ ((ret ≡ count 0) × (k.recv sock asked from ≡ (got [], after.world)))
    pub partial : IsPartial rest
    pub kept : HashTable.find sock after.recv_list ≡ some (receiving rest)
    pub delivers : Delivers s after h rest fs

  pub record Refused (k : Kernel S) (s : Server S) (h : List ℕ) (r : Option (Loop S)) : Type 0 where
    pub fs : List (List ℕ)
    pub lost : List ℕ
    pub before : Server S
    pub result : r ≡ close_and_return k sock before
    pub crowded : 200 < count_if (PackageList.msg_equal sock) before.packages.messages
    pub whole : IsFrame lost
    pub gone : HashTable.find sock before.recv_list ≡ none
    pub delivers : Delivers s before h lost fs

  abbrev pub Reassembles : Kernel S → Server S → List ℕ → Option (Loop S) → Type 0
  Reassembles k s h r = Ended k s h r ⊎ Refused k s h r

  -- What both steps of a round keep.
  pub record Keeps (s s' : Server S) (m : Message) : Type 0 where
    pub here : HashTable.find sock s'.recv_list ≡ some m
    pub others : (j : ℕ) → j ≢ sock → HashTable.find j s'.recv_list ≡ HashTable.find j s.recv_list
    pub sends : s'.send_list ≡ s.send_list
    pub valid : IsValid s'.recv_list

  module _ (s : Server S) (v : IsValid s.recv_list) where
    pub hold-Keeps :
        (g : List ℕ) (w : S) (m : Message)
        → HashTable.find sock s.recv_list ≡ some m
        → Keeps s (hold sock g w s) (receiving g)
    hold-Keeps g w m e = record {
      here = find-update_value sock s.recv_list v sock (receiving g) m e ∙ rw (==_refl sock);
      others =
          λ j ne. find-update_value sock s.recv_list v j (receiving g) m e ∙ rw (==_ne sock j ne);
      sends = refl;
      valid = update_value-IsValid sock s.recv_list v (receiving g);
    }

    pub forget-absent : HashTable.find sock (forget sock s).recv_list ≡ none
    forget-absent = find-erase sock s.recv_list v sock ∙ rw (==_refl sock)

    pub forget-others :
        (j : ℕ)
        → j ≢ sock
        → HashTable.find j (forget sock s).recv_list ≡ HashTable.find j s.recv_list
    forget-others j ne = find-erase sock s.recv_list v j ∙ rw (==_ne sock j ne)

    queue-list :
        (msg : Message)
        → (queue sock msg s).recv_list
          ≡ HashTable.insert sock (receiving []) (forget sock s).recv_list
    unfolding queue update_connect_time
    queue-list msg = ground arith

    pub queue-Keeps : (msg : Message) → Keeps s (queue sock msg s) (receiving [])
    queue-Keeps msg =
        let gone = erase-IsValid sock s.recv_list v in
        record {
          here =
              rw
                (
                  queue-list msg,
                  find-insert sock (forget sock s).recv_list gone sock (receiving []),
                )
                (rw (==_refl sock, forget-absent));
          others = λ j ne.
              rw (queue-list msg, find-insert sock (forget sock s).recv_list gone j (receiving []))
                (rw (==_ne sock j ne) (forget-others j ne));
          sends = unfold queue update_connect_time in ground arith;
          valid =
              rw (queue-list msg)
                (insert-IsValid sock (forget sock s).recv_list gone (receiving []));
        }

    pub queue-packages :
        (msg : Message)
        → ltb 200 (count_if (PackageList.msg_equal sock) s.packages.messages) ≡ false
        → ((queue sock msg s).packages.messages ≡ s.packages.messages ++ (sock, msg) ∷ [])
          × ((queue sock msg s).packages.permits ≡ s.packages.permits + 1)
          × ((queue sock msg s).world ≡ s.world)
    unfolding queue update_connect_time PackageList.add_msg
    queue-packages msg room = ground arith
