-- ===== src/Server/Sending.antt =====
-- net_server.cpp, `SendMsg`: where the bytes of a packet go.
use pserver.Prelude.{
  ℕ, ◌+◌, ◌≤◌, ◌<◌, ◌≡◌, refl, sym, ap, subst, ◌∙◌, ◌≢◌, inl, inr, false, List, [], ◌++◌,
  append_assoc, append-nil, none, some, arith, leb, Bool-cases, ==_refl, ==_ne, Option-cases,
  length, length-append, length-drop, drop-all, take-all, Returns,
}
use pserver.HashTable
use pserver.HashTable.Laws.{IsValid, find-insert, find-update_value}
use pserver.Kernel.{Kernel, Events, SendLaws, TakesPart, sent, eagain, ctl_mod}
use pserver.Message
use pserver.Message.{Message}
use pserver.Message.Padding.{receiving}
use pserver.Message.Receive.{new-receiving}
use pserver.Message.Transfer
use pserver.Message.Transfer.{Ret, count, failed}
use pserver.Server.Outbox.{
  unsent, waiting, pending, waiting_length, IsSendable, WaitingIsSendable, send_lem, kept_lem,
}
use pserver.Server.{Server, is_negative, epoll_in_out, send_now, send_msg}

module _ {S : Type 0} (k : Kernel S) (sock : ℕ) (out : S → List ℕ)
    (laws : SendLaws k sock out) where
  -- The receiving side and what waits on other sockets are the same, and so is all of the world that no call of `SendMsg` changes.
  abbrev pub Leaves : Server S → Server S → Type 0
  Leaves s s' =
      (s'.recv_list ≡ s.recv_list)
      × (s'.listen_sock ≡ s.listen_sock)
      × ((j : ℕ) → j ≢ sock → HashTable.find j s'.send_list ≡ HashTable.find j s.send_list)
      × ((f : S → List ℕ)
          → ((bytes : List ℕ) (w : S) → f (k.send sock bytes w).1 ≡ f w)
          → ((events : Events) (w : S) → f (k.epoll_ctl ctl_mod sock events w).1 ≡ f w)
          → f s'.world ≡ f s.world)

  pub Leaves-refl : (s : Server S) → Leaves s s
  Leaves-refl s = (refl, refl, λ j ne. refl, λ f send ctl. refl)

  pub Leaves-trans : (s s1 s2 : Server S) → Leaves s s1 → Leaves s1 s2 → Leaves s s2
  Leaves-trans s s1 s2 (a, b, o, c) (a', b', o', c') =
      (a' ∙ a, b' ∙ b, λ j ne. o' j ne ∙ o j ne, λ f send ctl. c' f send ctl ∙ c f send ctl)

  -- The bytes of a packet are behind those that were there, what waits has grown by no more, and the log has not
  -- grown.
  abbrev pub Queued : Server S → List ℕ → Server S → Type 0
  Queued s bytes s' =
      (out s'.world ++ pending sock s' ≡ (out s.world ++ pending sock s) ++ bytes)
      × (waiting_length (HashTable.find sock s'.send_list)
          ≤ waiting_length (HashTable.find sock s.send_list) + length bytes)
      × (s'.entries ≡ s.entries)
      × Leaves s s'

  -- Nothing waits: the packet is sent at once, and the rest of it waits.
  sent_now :
      (s : Server S) (msg : Message)
      → IsValid s.send_list
      → HashTable.find sock s.send_list ≡ none
      → IsSendable msg
      → (TakesPart (k.send sock (unsent msg) s.world).0 (unsent msg)
          → k.errno (k.send sock (unsent msg) s.world).1 ≡ eagain)
      → Returns (send_now k sock msg s) λ r.
        (out r.0.world ++ pending sock r.0 ≡ out s.world ++ unsent msg)
        × (waiting_length (HashTable.find sock r.0.send_list) ≤ length msg.buffer)
        × (r.0.entries ≡ s.entries)
        × Leaves s r.0
  unfolding send_now Transfer.send_done Message.copy
  sent_now s msg v e fit again =
      let ((m, ret, w), sends, (moved, fits, world, size, part)) =
        send_lem k sock out laws msg s.world fit in
      elim (Bool-cases (leb (length m.buffer) m.send_begin)) [
        | inl done ↦ (
          (record s { world = w }, record m { send_begin = 0 }),
          rw (send_now, sends) (ground arith),
          (
            rw e (ap (◌++◌ (out w)) (sym (drop-all m.send_begin m.buffer (ground arith))) ∙ moved),
            rw e (omega arith),
            refl,
            (refl, refl, λ j ne. refl, λ f send ctl. ap f world ∙ send (unsent msg) s.world),
          ),
        )
        | inr more ↦
            let errno : k.errno w ≡ eagain = ap k.errno world ∙ again (part more) in
            let queued : Message = record (receiving []) { buffer = unsent m; send_begin = 0 } in
            let found : HashTable.find sock (HashTable.insert sock queued s.send_list)
                ≡ some queued =
              find-insert sock s.send_list v sock queued ∙ rw (==_refl sock, e) in
            (
              (
                record s {
                  send_list = HashTable.insert sock queued s.send_list;
                  world = (k.epoll_ctl ctl_mod sock epoll_in_out w).1;
                },
                m,
              ),
              rw (send_now, sends, new-receiving) (ground (arith, fits)),
              (
                rw (found, laws.ctl_same ctl_mod epoll_in_out w) moved,
                rw found (omega (arith, size, length-drop m.send_begin m.buffer)),
                refl,
                (
                  refl,
                  refl,
                  λ j ne. find-insert sock s.send_list v j queued ∙ rw (==_ne sock j ne),
                  λ f send ctl. ctl epoll_in_out w ∙ (ap f world ∙ send (unsent msg) s.world),
                ),
              ),
            )
      ]

  -- Behind what waits on the socket a packet is put whole.
  appended :
      (old msg : Message)
      → IsSendable old
      → length old.buffer < 0xffff
      → length msg.buffer ≤ 0xffff
      → msg.send_begin ≡ 0
      → Returns (Message.append old msg) λ m.
        (unsent m ≡ unsent old ++ msg.buffer)
        × (length m.buffer ≤ length old.buffer + length msg.buffer)
  unfolding Message.append
  appended old msg fit room short start = (
    record old { buffer = unsent old ++ msg.buffer; send_begin = 0 },
    ground (arith, take-all (length msg.buffer) msg.buffer (omega arith)),
    (
      refl,
      omega (arith, length-append (unsent old) msg.buffer, length-drop old.send_begin old.buffer),
    ),
  )

  pub send_msg_lem :
      (s : Server S) (msg : Message)
      → is_negative sock ≡ false
      → IsValid s.send_list
      → WaitingIsSendable (HashTable.find sock s.send_list)
      → waiting_length (HashTable.find sock s.send_list) < 0xffff
      → length msg.buffer ≤ 0xffff
      → (TakesPart (k.send sock msg.buffer s.world).0 msg.buffer
          → k.errno (k.send sock msg.buffer s.world).1 ≡ eagain)
      → Returns (send_msg k sock msg false s) λ r. Queued s msg.buffer r.0
  unfolding send_msg Message.re_send
  send_msg_lem s msg pos v fit room short again =
      elim (Option-cases (HashTable.find sock s.send_list)) [
        | inl e ↦
            let (r, sends, (moved, few, said, leaves)) =
              sent_now s (record msg { send_begin = 0 }) v e (omega arith, short) again in
            (
              r,
              rw (pos, e, send_msg, sends) refl,
              (moved ∙ rw (e, append-nil) refl, omega (arith, few), said, leaves),
            )
        | inr (old, e) ↦
            let (m, appends, whole) =
              appended old (record msg { send_begin = 0 }) (subst WaitingIsSendable e fit)
                (omega (arith, ap waiting_length e)) short refl in
            let kept = kept_lem k sock out laws s m old v e in
            (
              (
                record s { send_list = HashTable.update_value sock m s.send_list },
                record msg { send_begin = 0 },
              ),
              rw (pos, e, send_msg, appends) refl,
              (
                ap (λ o. out s.world ++ waiting o) kept
                    ∙ (ap (◌++◌ (out s.world)) whole.0
                        ∙ (sym (append_assoc (out s.world) (unsent old) msg.buffer)
                            ∙ ap (λ o. (out s.world ++ waiting o) ++ msg.buffer) (sym e))),
                omega (arith, ap waiting_length kept, ap waiting_length e, whole.1),
                refl,
                (
                  refl,
                  refl,
                  λ j ne. find-update_value sock s.send_list v j m old e ∙ rw (==_ne sock j ne),
                  λ f send ctl. refl,
                ),
              ),
            )
      ]

  -- `SendMsg` without `clearOld`, on a socket that is not negative, with a valid send table and
  -- `send` as documented, loses, repeats and reorders no byte where the packet is at most 65535
  -- bytes long, the positions of the one that waits fit into 16 bits and its buffer is shorter than
  -- 65535, and `errno` holds `EAGAIN` after a `send` that does not take the whole packet: what the
  -- kernel has taken, with what waits behind it, grows by exactly the bytes of the packet.
  pub send_msg-conserves :
      (s : Server S) (msg : Message)
      → is_negative sock ≡ false
      → IsValid s.send_list
      → WaitingIsSendable (HashTable.find sock s.send_list)
      → waiting_length (HashTable.find sock s.send_list) < 0xffff
      → length msg.buffer ≤ 0xffff
      → (TakesPart (k.send sock msg.buffer s.world).0 msg.buffer
          → k.errno (k.send sock msg.buffer s.world).1 ≡ eagain)
      → Returns
          (send_msg k sock msg false s)
          λ r. out r.0.world ++ pending sock r.0 ≡ (out s.world ++ pending sock s) ++ msg.buffer
  send_msg-conserves s msg pos v fit room short again =
      let (r, e, q) = send_msg_lem s msg pos v fit room short again in (r, e, q.0)

module _ {S : Type 0} (k : Kernel S) (sock : ℕ) where
  -- On a socket that is not negative nothing waits, the kernel takes only a part of a packet of at
  -- most 65535 bytes, and `errno` does not hold `EAGAIN`: `SendMsg` comes back with no change to
  -- the server but that of the kernel, so the rest is never sent.
  pub send_msg_drops :
      (s : Server S) (msg : Message) (n : ℕ) (w : S)
      → is_negative sock ≡ false
      → HashTable.find sock s.send_list ≡ none
      → length msg.buffer ≤ 0xffff
      → k.send sock msg.buffer s.world ≡ (sent n, w)
      → n < length msg.buffer
      → k.errno w ≢ eagain
      → send_msg k sock msg false s ≡ some (record s { world = w }, record msg { send_begin = n })
  unfolding send_msg send_now Message.re_send Transfer.send Transfer.send_done
  send_msg_drops s msg n w pos e short taken part other =
      rw (pos, e, send_msg, send_now, taken) (ground arith)
