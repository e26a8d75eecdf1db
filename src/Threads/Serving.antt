-- ===== src/Threads/Serving.antt =====
-- server.cpp, net_server.cpp and net_packdeal.cpp together: the server as a function from the packets
-- of a connection to the bytes of the answers and the lines of the log.
use pserver.Prelude.{
  ℕ, suc, ◌+◌, ◌*◌, ◌≤◌, ◌<◌, ◌≡◌, refl, sym, ap, subst, ◌∙◌, inl, inr, true, false, List, [], ◌∷◌,
  ◌++◌, map, append-nil, arith, ◌==◌, Bool-cases, length, drop, All, Returns,
}
use mathlib.Core.List.{flatten}
use pserver.HashTable
use pserver.Kernel.{Kernel, TakesAtMost, TakesPart, SendLaws, eagain}
use pserver.Message.{Message}
use pserver.Message.Padding.{receiving}
use pserver.PackDeal.{ptl_test, ptl_test_fun}
use pserver.PackDeal.Laws.{answer_packet, length-answer_packet, ptl_test_reply_bytes, typed}
use pserver.Server.{type_error, is_negative}
use pserver.Server.Outbox.{waiting_length}
use pserver.Server.Sending.{Queued, Leaves, Leaves-refl, Leaves-trans, send_msg_lem}
use pserver.Server.Reassembly.{IsFrame}
use pserver.Server.Sound.{IsSound}
use pserver.Server.Sound.Closing.{get_package-IsSound}
use pserver.Threads.{PServer, is_running, pack_deal_round, reply_by, log_received}
use pserver.Threads.Answering.{output, sendable}
use pserver.Threads.Draining.{rounds, Rounds, round_lem}
use pserver.Threads.Handling.{Registered, get_package_lem, popped, handled, pack_deal_round_lem}
use pserver.Threads.Response.{response, logged, type_of, get_type-receiving, grown}

module _ {S : Type 0} (k : Kernel S) (sock : ℕ) (out : S → List ℕ) (takes : TakesAtMost k)
    (laws : SendLaws k sock out) (pos : is_negative sock ≡ false)
    (keeps : (bytes : List ℕ) (w : S)
      → TakesPart (k.send sock bytes w).0 bytes
      → k.errno (k.send sock bytes w).1 ≡ eagain) where
  -- The state between two rounds, with room for so many answers more on the socket.
  pub record Able (answers : ℕ) (p : PServer S) : Type 0 where
    pub sound : IsSound p.sockets
    pub registered : Registered k p
    pub on : is_running p ≡ true
    pub room : waiting_length (HashTable.find sock p.sockets.send_list) + 28 * answers < 0xffff

  -- What a round does with the packet `f`.
  record Serves (p : PServer S) (f : List ℕ) (p' : PServer S) : Type 0 where
    moved : output k sock out p'.sockets ≡ output k sock out p.sockets ++ response f
    said : p'.sockets.entries ≡ p.sockets.entries ++ logged sock f
    few :
        waiting_length (HashTable.find sock p'.sockets.send_list)
        ≤ waiting_length (HashTable.find sock p.sockets.send_list) + 28
    leaves : Leaves k sock out laws p.sockets p'.sockets

  tested :
      (p : PServer S) (msg : Message) (rest : List (ℕ × Message))
      → IsSound (popped k rest p)
      → waiting_length (HashTable.find sock p.sockets.send_list) < 0xffff
      → Returns
          (ptl_test_fun log_received (reply_by k) sock msg (popped k rest p))
          (Queued k sock out laws (log_received sock p.sockets) answer_packet)
  unfolding ptl_test_fun
  tested p msg rest v short =
      let made = ptl_test_reply_bytes msg in
      let reply : Message = record typed { buffer = answer_packet } in
      let (r, sends, queued) =
        send_msg_lem k sock out laws (log_received sock (popped k rest p)) reply pos v.sends
          (sendable k sock out (popped k rest p) v short) short
          (omega (arith, length-answer_packet)) (keeps answer_packet p.sockets.world) in
      (r.0, ground (arith, made, sends), queued)

  served :
      (p : PServer S) (f : List ℕ) (rest : List (ℕ × Message)) (answers : ℕ)
      → Able (suc answers) p
      → IsFrame f
      → p.sockets.packages.messages ≡ (sock, receiving f) ∷ rest
      → Returns (pack_deal_round k p) (Serves p f)
  served p f rest answers v frame e =
      let permit : 0 < p.sockets.packages.permits =
        omega (arith, v.sound.queue.covered, ap length e) in
      let sound =
        subst IsSound (ap (λ g. g.0) (get_package_lem k p sock (receiving f) rest e permit))
          (get_package-IsSound p.sockets v.sound) in
      let round =
        pack_deal_round_lem k p sock (type_of f) (receiving f) rest v.registered v.on e permit
          (get_type-receiving f frame) in
      elim (Bool-cases (type_of f == ptl_test)) [
        | inl test ↦
            let (s', made, (moved, few, said, leaves)) =
              tested p (receiving f) rest sound (omega (arith, v.room)) in
            (
              record p { sockets = s' },
              round ∙ rw test (ap (handled k p) made),
              record {
                moved = rw test moved;
                said = rw test said;
                few = omega (arith, few, length-answer_packet);
                leaves = leaves;
              },
            )
        | inr other ↦ (
          record p {
            sockets = record (popped k rest p) {
              entries = p.sockets.entries ++ type_error sock (type_of f) ∷ [];
            };
          },
          round ∙ rw other refl,
          record {
            moved = rw other (sym (append-nil (output k sock out p.sockets)));
            said = rw other refl;
            few = omega arith;
            leaves = Leaves-refl k sock out laws p.sockets;
          },
        )
      ]

  -- The state after the packets `fs`.
  pub record ServesAll (p : PServer S) (fs : List (List ℕ)) (p' : PServer S) : Type 0 where
    pub moved :
        output k sock out p'.sockets ≡ output k sock out p.sockets ++ flatten (map response fs)
    pub said : p'.sockets.entries ≡ p.sockets.entries ++ flatten (map (logged sock) fs)
    pub sound : IsSound p'.sockets
    pub registered : Registered k p'
    pub on : is_running p' ≡ true
    pub empty : p'.sockets.packages.messages ≡ []
    pub few :
        waiting_length (HashTable.find sock p'.sockets.send_list)
        ≤ waiting_length (HashTable.find sock p.sockets.send_list) + 28 * length fs
    pub leaves : Leaves k sock out laws p.sockets p'.sockets

  Able-next :
      (p p' : PServer S) (f : List ℕ) (answers : ℕ)
      → Able (suc answers) p
      → Rounds k takes 1 p p'
      → Serves p f p'
      → Able answers p'
  unfolding is_running
  Able-next p p' f answers v (sound, registered, on, left) did = record {
    sound = sound;
    registered = registered;
    on = on ∙ v.on;
    room = omega (arith, v.room, did.few);
  }

  -- One round: what it serves, and what it leaves.
  round_served :
      (p : PServer S) (f : List ℕ) (rest : List (ℕ × Message)) (answers : ℕ)
      → Able (suc answers) p
      → IsFrame f
      → p.sockets.packages.messages ≡ (sock, receiving f) ∷ rest
      → Returns
          (pack_deal_round k p)
          λ p'. Serves p f p' × Able answers p' × (p'.sockets.packages.messages ≡ rest)
  round_served p f rest answers v frame e =
      let (p1, made, serves) = served p f rest answers v frame e in
      let (p2, ends, left) = round_lem k takes p v.sound v.registered v.on in
      let left' : Rounds k takes 1 p p1 =
        subst (Rounds k takes 1 p) {x = p2} {y = p1} (ground (arith, made, ends)) left in
      (p1, made, (serves, Able-next p p1 f answers v left' serves, left'.3 ∙ ap (drop 1) e))

  pub rounds_served :
      (fs : List (List ℕ)) (p : PServer S)
      → Able (length fs) p
      → All IsFrame fs
      → p.sockets.packages.messages ≡ map (λ f. (sock, receiving f)) fs
      → Returns (rounds k (length fs) p) (ServesAll p fs)
  unfolding rounds flatten
  rounds_served [] p v frames e = (
    p,
    refl,
    record {
      moved = sym (append-nil (output k sock out p.sockets));
      said = sym (append-nil p.sockets.entries);
      sound = v.sound;
      registered = v.registered;
      on = v.on;
      empty = e;
      few = omega arith;
      leaves = Leaves-refl k sock out laws p.sockets;
    },
  )
  rounds_served (f ∷ fs) p v frames e =
      let (p1, made, (first, able, left)) =
        round_served p f (map (λ g. (sock, receiving g)) fs) (length fs) v frames.0 e in
      let (p2, rest, others) = rounds_served fs p1 able frames.1 left in
      (
        p2,
        rw made rest,
        record {
          moved = grown _ _ (response f) (flatten (map response fs)) _ first.moved others.moved;
          said =
              grown _ _ (logged sock f) (flatten (map (logged sock) fs)) _ first.said others.said;
          sound = others.sound;
          registered = others.registered;
          on = others.on;
          empty = others.empty;
          few = omega (arith, first.few, others.few);
          leaves =
              Leaves-trans k sock out laws p.sockets p1.sockets p2.sockets first.leaves
                others.leaves;
        },
      )
