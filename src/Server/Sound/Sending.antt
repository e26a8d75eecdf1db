-- ===== src/Server/Sound/Sending.antt =====
-- net_server.cpp, `SendMsg` and `OnSend`: they have no fault and keep the server sound.
use pserver.Prelude.{
  ℕ, ◌+◌, ◌-◌, ◌%◌, ◌≡◌, refl, inl, inr, Bool, true, false, [], ◌++◌, none, some, arith, leb, ◌==◌,
  Bool-cases, Option-cases, length, take, drop, length-drop, ◌>>=◌, Returns,
}
use pserver.HashTable
use pserver.HashTable.{Table}
use pserver.HashTable.Laws.{IsValid, insert-IsValid, erase-IsValid, update_value-IsValid}
use pserver.HashTable.Holds.{Holds, Holds-insert, Holds-erase, Holds-update_value}
use pserver.Kernel.{Kernel, TakesAtMost, Sent, sent, send_failed, ctl_mod, eagain}
use pserver.Message
use pserver.Message.{Message}
use pserver.Message.Padding.{receiving}
use pserver.Message.Receive.{new-receiving}
use pserver.Message.Transfer
use pserver.Message.Transfer.{Ret, count, failed}
use pserver.Server.{Server, is_negative, epoll_in, epoll_in_out, on_send, send_now, send_msg}
use pserver.Server.Sound.{CanSend, IsSound}

module _ {S : Type 0} (k : Kernel S) (takes : TakesAtMost k) (sock : ℕ) where
  send_answer :
      (m : Message) (w : S) (answer : Sent) (w' : S)
      → CanSend m
      → k.send sock (drop m.send_begin m.buffer) w ≡ (answer, w')
      → Returns (Transfer.send (k.send sock) m w) λ r. CanSend r.0
  unfolding Transfer.send
  send_answer m w send_failed w' fit e = ((m, failed, w'), ground (arith, e), fit)
  send_answer m w (sent n) w' fit e =
      let few = takes sock (drop m.send_begin m.buffer) n w w' e in
      let short = length-drop m.send_begin m.buffer in
      (
        (record m { send_begin = (m.send_begin + n) % 65536 }, count n, w'),
        ground (arith, e),
        omega arith,
      )

  send-CanSend :
      (m : Message) (w : S) → CanSend m → Returns (Transfer.send (k.send sock) m w) λ r. CanSend r.0
  send-CanSend m w fit =
      let bytes = drop m.send_begin m.buffer in
      send_answer m w (k.send sock bytes w).0 (k.send sock bytes w).1 fit refl

  module _ (s : Server S) (v : IsSound s) where
    -- The server with another table of packets that wait, in another world.
    replaced-IsSound :
        (t : Table Message) (w : S)
        → IsValid t
        → Holds CanSend t
        → IsSound (record s { send_list = t; world = w })
    replaced-IsSound t w valid fits = record {
      receives = v.receives;
      sends = valid;
      queue = v.queue;
      whole = v.whole;
      partial = v.partial;
      unsent = fits;
      times = v.times;
      closes = v.closes;
    }

    sent_from :
        (msg : Message)
        → HashTable.find sock s.send_list ≡ some msg
        → Returns (on_send k sock s) IsSound
    unfolding on_send Transfer.send_done
    sent_from msg e =
        let ((m, ret, w), sends, fit) = send-CanSend msg s.world (v.unsent sock msg e) in
        elim (Bool-cases (leb (length m.buffer) m.send_begin)) [
          | inl done ↦
              let w' = (k.epoll_ctl ctl_mod sock epoll_in w).1 in
              (
                record s { send_list = (HashTable.erase sock s.send_list).0; world = w' },
                rw (e, on_send, sends) (ground arith),
                replaced-IsSound (HashTable.erase sock s.send_list).0 w'
                    (erase-IsValid sock s.send_list v.sends)
                    (Holds-erase CanSend sock s.send_list v.sends v.unsent),
              )
          | inr more ↦ (
            record s { send_list = HashTable.update_value sock m s.send_list; world = w },
            rw (e, on_send, sends) (ground arith),
            replaced-IsSound (HashTable.update_value sock m s.send_list) w
                (update_value-IsValid sock s.send_list v.sends m)
                (Holds-update_value CanSend sock m msg s.send_list v.sends e v.unsent fit),
          )
        ]

    pub on_send-IsSound : Returns (on_send k sock s) IsSound
    unfolding on_send
    on_send-IsSound = elim (Option-cases (HashTable.find sock s.send_list)) [
      | inl e ↦ (s, rw (e, on_send), v)
      | inr (msg, e) ↦ sent_from msg e
    ]

    -- What `SendMsg` leaves alone.
    abbrev pub Sends : Server S × Message → Type 0
    Sends r = IsSound r.0 × (r.0.packages ≡ s.packages)

    sent_now : (msg : Message) → CanSend msg → Returns (send_now k sock msg s) Sends
    unfolding send_now Transfer.send_done Message.copy
    sent_now msg fit =
        let ((m, ret, w), sends, fits) = send-CanSend msg s.world fit in
        elim (Bool-cases (leb (length m.buffer) m.send_begin)) [
          | inl done ↦ (
            (record s { world = w }, record m { send_begin = 0 }),
            rw (send_now, sends) (ground arith),
            (replaced-IsSound s.send_list w v.sends v.unsent, refl),
          )
          | inr more ↦ elim (Bool-cases (k.errno w == eagain)) [
            | inr other ↦ (
              (record s { world = w }, m),
              rw (send_now, sends) (ground arith),
              (replaced-IsSound s.send_list w v.sends v.unsent, refl),
            )
            | inl again ↦
                let queued : Message = record (receiving []) {
                  buffer = drop m.send_begin m.buffer;
                  send_begin = 0;
                } in
                let w' = (k.epoll_ctl ctl_mod sock epoll_in_out w).1 in
                (
                  (
                    record s { send_list = HashTable.insert sock queued s.send_list; world = w' },
                    m,
                  ),
                  rw (send_now, sends, new-receiving) (ground (arith, fits)),
                  (
                    replaced-IsSound (HashTable.insert sock queued s.send_list) w'
                        (insert-IsValid sock s.send_list v.sends queued)
                        (Holds-insert CanSend sock queued s.send_list v.sends v.unsent
                          (omega arith)),
                    refl,
                  ),
                )
          ]
        ]

    -- Behind the packet that waits.
    appended :
        (old msg : Message)
        → HashTable.find sock s.send_list ≡ some old
        → msg.send_begin ≡ 0
        → Returns
            (Message.append old msg)
            λ m. IsSound (record s { send_list = HashTable.update_value sock m s.send_list })
    unfolding Message.append
    appended old msg e start =
        let keep = λ (m : Message) (fit : CanSend m).
          replaced-IsSound (HashTable.update_value sock m s.send_list) s.world
            (update_value-IsValid sock s.send_list v.sends m)
            (Holds-update_value CanSend sock m old s.send_list v.sends e v.unsent fit) in
        elim (Bool-cases (leb 0xffff (length old.buffer))) [
          | inl full ↦ (old, rw full, keep old (v.unsent sock old e))
          | inr room ↦
              let m : Message = record old {
                buffer =
                    drop old.send_begin old.buffer
                    ++ take ((length msg.buffer - msg.send_begin) % 65536)
                        (drop msg.send_begin msg.buffer);
                send_begin = 0;
              } in
              (m, ground arith, keep m (omega arith))
        ]

    -- the rest of `SendMsg`, once an old packet is out of the way
    queued :
        (msg : Message)
        → msg.send_begin ≡ 0
        → Returns
            (elim (HashTable.find sock s.send_list) [
              | some old ↦ do
                old' ← Message.append old msg
                some (record s { send_list = HashTable.update_value sock old' s.send_list }, msg)
              | none ↦ send_now k sock msg s
            ])
            Sends
    queued msg start = elim (Option-cases (HashTable.find sock s.send_list)) [
      | inl e ↦ rw e (sent_now msg (omega arith))
      | inr (old, e) ↦
          let (m, appends, sound) = appended old msg e start in
          (
            (record s { send_list = HashTable.update_value sock m s.send_list }, msg),
            rw (e, appends),
            (sound, refl),
          )
    ]

-- `SendMsg` with a packet of any length, at any state of the socket.
pub send_msg-IsSound :
    {S : Type 0} (k : Kernel S)
    → TakesAtMost k
    → (sock : ℕ) (msg : Message) (clear_old : Bool) (s : Server S) → IsSound s
    → Returns (send_msg k sock msg clear_old s) λ r. IsSound r.0 × (r.0.packages ≡ s.packages)
unfolding send_msg Message.re_send
send_msg-IsSound k takes sock msg false s v =
    let (r, sends, sound) = queued k takes sock s v (record msg { send_begin = 0 }) refl in
    elim (Bool-cases (is_negative sock)) [
      | inl negative ↦ ((s, msg), rw negative, (v, refl))
      | inr fine ↦ (r, rw fine sends, sound)
    ]
send_msg-IsSound k takes sock msg true s v =
    let s' = record s { send_list = (HashTable.erase sock s.send_list).0 } in
    let v' =
      replaced-IsSound k takes sock s v (HashTable.erase sock s.send_list).0 s.world
        (erase-IsValid sock s.send_list v.sends)
        (Holds-erase CanSend sock s.send_list v.sends v.unsent) in
    let (r, sends, sound) = queued k takes sock s' v' (record msg { send_begin = 0 }) refl in
    elim (Bool-cases (is_negative sock)) [
      | inl negative ↦ ((s, msg), rw negative, (v, refl))
      | inr fine ↦ (r, rw fine sends, sound)
    ]
