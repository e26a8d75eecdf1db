-- ===== src/Server/Outbox.antt =====
-- net_server.cpp, `SendMsg` and `OnSend`: what becomes of the bytes that are sent on a socket. `out` is
-- what the kernel has taken on the socket so far.
use pserver.Prelude.{
  ℕ, zero, suc, ◌+◌, ◌≤◌, ◌≡◌, refl, sym, ap, subst, ◌∙◌, inl, inr, true, false, List, [], ◌∷◌,
  ◌++◌, append_assoc, Option, none, some, arith, leb, Bool-cases, ==_refl, Option-cases, length,
  take, drop, take-append-drop, drop-all, length-drop, Returns,
}
use pserver.HashTable
use pserver.HashTable.Laws.{IsValid, find-erase, find-update_value}
use pserver.Kernel.{Kernel, SendLaws, TakesPart, Sent, sent, send_failed, ctl_mod}
use pserver.Message.{Message}
use pserver.Message.Transfer
use pserver.Message.Transfer.{Ret, count, failed}
use pserver.Server.{Server, epoll_in, on_send}

-- What of a packet is still to be sent.
abbrev pub unsent : Message → List ℕ
unsent m = drop m.send_begin m.buffer

abbrev pub waiting : Option Message → List ℕ
waiting none = []
waiting (some m) = unsent m

-- The bytes that wait for `OnSend` on the socket.
abbrev pub pending : {S : Type 0} → ℕ → Server S → List ℕ
pending sock s = waiting (HashTable.find sock s.send_list)

-- The positions of a packet fit into 16 bits.
abbrev pub IsSendable : Message → Type 0
IsSendable m = (m.send_begin ≤ length m.buffer) × (length m.buffer ≤ 0xffff)

abbrev pub waiting_length : Option Message → ℕ
waiting_length none = 0
waiting_length (some m) = length m.buffer

-- The packet that waits on a socket, if there is one, is sendable.
abbrev pub WaitingIsSendable : Option Message → Type 0
WaitingIsSendable none = Unit {0}
WaitingIsSendable (some m) = IsSendable m

drop_add : (m n : ℕ) (xs : List ℕ) → drop (m + n) xs ≡ drop n (drop m xs)
drop_add zero n xs = ap (λ k. drop k xs) (omega arith)
drop_add (suc m) n [] = drop-all (suc m + n) [] (omega arith) ∙ sym (drop-all n [] (omega arith))
drop_add (suc m) n (x ∷ xs) =
    ap (λ k. drop k (x ∷ xs)) {x = suc m + n} {y = suc (m + n)} (omega arith) ∙ drop_add m n xs

module _ {S : Type 0} (k : Kernel S) (sock : ℕ) (out : S → List ℕ)
    (laws : SendLaws k sock out) where
  abbrev pub Sends : Message → S → Message × Ret × S → Type 0
  Sends m w r =
      (out r.2 ++ unsent r.0 ≡ out w ++ unsent m)
      × IsSendable r.0
      × (r.2 ≡ (k.send sock (unsent m) w).1)
      × (length r.0.buffer ≡ length m.buffer)
      × (leb (length r.0.buffer) r.0.send_begin ≡ false
          → TakesPart (k.send sock (unsent m) w).0 (unsent m))

  pub send_answer :
      (m : Message) (w : S) (answer : Sent) (w' : S)
      → IsSendable m
      → k.send sock (unsent m) w ≡ (answer, w')
      → Returns (Transfer.send (k.send sock) m w) (Sends m w)
  unfolding Transfer.send
  send_answer m w send_failed w' fit e = (
    (m, failed, w'),
    ground (arith, e),
    (
      ap (λ o. o ++ unsent m) (laws.send_none (unsent m) w w' e),
      fit,
      sym (ap (λ r. r.1) e),
      refl,
      λ more. subst (λ r. TakesPart r.0 (unsent m)) (sym e) tt,
    ),
  )
  send_answer m w (sent n) w' fit e =
      let (small, taken) = laws.send_sent (unsent m) n w w' e in
      let m' : Message = record m { send_begin = m.send_begin + n } in
      let short = length-drop m.send_begin m.buffer in
      (
        (m', count n, w'),
        ground (arith, e, short),
        (
          ap (λ o. o ++ unsent m') taken
              ∙ (append_assoc (out w) (take n (unsent m)) (unsent m')
                  ∙ ap (◌++◌ (out w)) (
                      ap (◌++◌ (take n (unsent m))) (drop_add m.send_begin n m.buffer)
                      ∙ take-append-drop n (unsent m))),
          (omega (arith, short), fit.1),
          sym (ap (λ r. r.1) e),
          refl,
          λ more. subst (λ r. TakesPart r.0 (unsent m)) (sym e) (ground (arith, short)),
        ),
      )

  -- One call of `Send`: what the kernel takes goes from the packet to `out`.
  pub send_lem :
      (m : Message) (w : S) → IsSendable m → Returns (Transfer.send (k.send sock) m w) (Sends m w)
  send_lem m w fit =
      send_answer m w (k.send sock (unsent m) w).0 (k.send sock (unsent m) w).1 fit refl

  pub gone_lem :
      (s : Server S) (m : Message) (w : S)
      → IsValid s.send_list
      → leb (length m.buffer) m.send_begin ≡ true
      → out (k.epoll_ctl ctl_mod sock epoll_in w).1
          ++ waiting (HashTable.find sock (HashTable.erase sock s.send_list).0)
        ≡ out w ++ unsent m
  gone_lem s m w v done =
      let gone : HashTable.find sock (HashTable.erase sock s.send_list).0 ≡ none =
        find-erase sock s.send_list v sock ∙ rw (==_refl sock) in
      rw (gone, laws.ctl_same ctl_mod epoll_in w)
        (ap (◌++◌ (out w)) (sym (drop-all m.send_begin m.buffer (ground arith))))

  pub kept_lem :
      (s : Server S) (m old : Message)
      → IsValid s.send_list
      → HashTable.find sock s.send_list ≡ some old
      → HashTable.find sock (HashTable.update_value sock m s.send_list) ≡ some m
  kept_lem s m old v e = find-update_value sock s.send_list v sock m old e ∙ rw (==_refl sock)

  -- What `OnSend` makes of the server whose packet `msg` was sent from.
  sent_lem :
      (s : Server S) (msg : Message)
      → IsValid s.send_list
      → HashTable.find sock s.send_list ≡ some msg
      → IsSendable msg
      → Returns
          (on_send k sock s)
          λ s'. out s'.world ++ pending sock s' ≡ out s.world ++ pending sock s
  unfolding on_send Transfer.send_done
  sent_lem s msg v e fit =
      let ((m, ret, w), sends, (moved, fits, world, _, _)) = send_lem msg s.world fit in
      let same = moved ∙ ap (λ o. out s.world ++ waiting o) (sym e) in
      elim (Bool-cases (leb (length m.buffer) m.send_begin)) [
        | inl done ↦ (
          record s {
            send_list = (HashTable.erase sock s.send_list).0;
            world = (k.epoll_ctl ctl_mod sock epoll_in w).1;
          },
          rw (e, on_send, sends) (ground arith),
          gone_lem s m w v done ∙ same,
        )
        | inr more ↦ (
          record s { send_list = HashTable.update_value sock m s.send_list; world = w },
          rw (e, on_send, sends) (ground arith),
          ap (λ o. out w ++ waiting o) (kept_lem s m msg v e) ∙ same,
        )
      ]

  -- In a valid send table, where the positions of a packet that waits fit into 16 bits and `send`
  -- is as documented: `OnSend` loses, repeats and reorders no byte. What the kernel has taken, with
  -- what still waits behind it, stays the same.
  pub on_send-conserves :
      (s : Server S)
      → IsValid s.send_list
      → WaitingIsSendable (HashTable.find sock s.send_list)
      → Returns
          (on_send k sock s)
          λ s'. out s'.world ++ pending sock s' ≡ out s.world ++ pending sock s
  unfolding on_send
  on_send-conserves s v fit = elim (Option-cases (HashTable.find sock s.send_list)) [
    | inl e ↦ (s, rw (e, on_send) refl, refl)
    | inr (msg, e) ↦ sent_lem s msg v e (subst WaitingIsSendable e fit)
  ]
