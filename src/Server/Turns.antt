-- ===== src/Server/Turns.antt =====
-- net_server.cpp, `OnRecv`: what one round of the receive loop may do, whatever it receives.
use pserver.Prelude.{
  ℕ, zero, suc, ◌≡◌, refl, ap, subst, ◌∙◌, ◌⊎◌, inl, inr, Bool, true, false, ◌||◌, Option, none,
  some, arith, ltb, if◌then◌else◌, Bool-cases, Option-cases, ◌>>=◌,
}
use pserver.HashTable
use pserver.Kernel.{Kernel}
use pserver.Message
use pserver.Message.{Message}
use pserver.Message.Transfer
use pserver.Message.Transfer.{Ret, count, failed}
use pserver.PackageList
use pserver.Server.{Server, is_negative, update_connect_time}
use pserver.Server.Loop.{Loop, ended, forget, finish, recv_loop, close_and_return}

abbrev pub bytes_of : Ret → ℕ
bytes_of failed = 0
bytes_of (count n) = n

Ret-cases : (ret : Ret) → (ret ≡ failed) ⊎ ((ret ≡ count 0) ⊎ ((n : ℕ) × (ret ≡ count (suc n))))
Ret-cases failed = inl refl
Ret-cases (count zero) = inr (inl refl)
Ret-cases (count (suc n)) = inr (inr (n, refl))

module _ {S : Type 0} (k : Kernel S) (sock : ℕ) where
  -- The server once `Recv` has come back.
  abbrev pub held : Message → S → Server S → Server S
  held m w s = record s { recv_list = HashTable.update_value sock m s.recv_list; world = w }

  -- A round that comes to `l`, with the rounds behind it: the loop ends, the connection is closed, the
  -- packet is queued, or it is not complete.
  pub data Turn (fuel : ℕ) (msg : Message) (s : Server S) (l : Loop S) : Type 0 where
    ends :
        (m : Message) (ret : Ret) (w : S)
        → Transfer.recv (k.recv sock) msg s.world ≡ some (m, ret, w)
        → l ≡ ended ret (held m w s)
        → Turn fuel msg s l
    closes :
        (m : Message) (n : ℕ) (w : S)
        → Transfer.recv (k.recv sock) msg s.world ≡ some (m, count (suc n), w)
        → close_and_return k sock (forget sock (held m w s)) ≡ some l
        → Turn fuel msg s l
    queues :
        (m fresh : Message) (n : ℕ) (w : S) (s' : Server S)
        → Transfer.recv (k.recv sock) msg s.world ≡ some (m, count (suc n), w)
        → Transfer.recv_done m ≡ some true
        → finish sock m (held m w s) ≡ some (fresh, s', true)
        → recv_loop k fuel sock fresh s' ≡ some l
        → Turn fuel msg s l
    goes_on :
        (m : Message) (n : ℕ) (w : S)
        → Transfer.recv (k.recv sock) msg s.world ≡ some (m, count (suc n), w)
        → recv_loop k fuel sock m (held m w s) ≡ some l
        → Turn fuel msg s l

  finish-refused :
      (m m' : Message) (s s' : Server S)
      → finish sock m s ≡ some (m', s', false)
      → s' ≡ forget sock s
  unfolding finish
  finish-refused m m' s s' e = elim (Bool-cases (PackageList.add_msg m sock s.packages).1) [
    | inr full ↦ ground (arith, e, full)
    | inl room ↦ elim (Option-cases Message.new) [
      | inl f ↦ absurd (ground (arith, e, f, room))
      | inr (fresh, f) ↦ absurd (ground (arith, e, f, room))
    ]
  ]

  -- `finish` does nothing outside the program, and leaves the callback, the listening socket and the log.
  pub finish-outside :
      (m m' : Message) (s s' : Server S) (taken : Bool)
      → finish sock m s ≡ some (m', s', taken)
      → (s'.world ≡ s.world)
        × (s'.on_close ≡ s.on_close)
        × (s'.listen_sock ≡ s.listen_sock)
        × (s'.entries ≡ s.entries)
  unfolding finish update_connect_time
  finish-outside m m' s s' taken e = elim (Bool-cases (PackageList.add_msg m sock s.packages).1) [
    | inr full ↦ ground (arith, e, full)
    | inl room ↦ elim (Option-cases Message.new) [
      | inl f ↦ absurd (ground (arith, e, f, room))
      | inr (fresh, f) ↦ elim (Bool-cases (is_negative sock || ltb 4096 sock)) [
        | inl out ↦ ground (arith, e, f, room, out)
        | inr within ↦ ground (arith, e, f, room, within)
      ]
    ]
  ]

  module _ (fuel : ℕ) (msg : Message) (s : Server S) (l : Loop S) (m : Message) (n : ℕ) (w : S)
      (r : Transfer.recv (k.recv sock) msg s.world ≡ some (m, count (suc n), w)) where
    finished-Turn :
        Transfer.recv_done m ≡ some true
        → (out : Option (Message × Server S × Bool)) → finish sock m (held m w s) ≡ out
        → (out >>= λ (fresh, s', taken).
            if taken then recv_loop k fuel sock fresh s' else close_and_return k sock s')
          ≡ some l
        → Turn fuel msg s l
    finished-Turn whole none f e = absurd (ground (arith, e))
    finished-Turn whole (some (fresh, s', true)) f e = queues m fresh n w s' r whole f e
    finished-Turn whole (some (fresh, s', false)) f e =
        let same : s' ≡ forget sock (held m w s) = finish-refused m fresh (held m w s) s' f in
        closes m n w r (subst (λ x. close_and_return k sock x ≡ some l) same e)

    progressed-Turn :
        (do
          len ← Message.get_length m
          done ← Transfer.recv_done m
          if ltb 0xffff len
              then close_and_return k sock (forget sock (held m w s))
              else (if done
                  then (finish sock m (held m w s) >>= λ (fresh, s', taken).
                      if taken then recv_loop k fuel sock fresh s' else close_and_return k sock s')
                  else recv_loop k fuel sock m (held m w s)))
          ≡ some l
        → Turn fuel msg s l
    progressed-Turn e = elim (Option-cases (Message.get_length m)) [
      | inl none' ↦ absurd (ground (arith, e))
      | inr (len, f) ↦ elim (Option-cases (Transfer.recv_done m)) [
        | inl none' ↦ absurd (ground (arith, e))
        | inr (done, g) ↦ elim (Bool-cases (ltb 0xffff len)) [
          | inl long ↦ closes m n w r (ground (arith, e, f, g))
          | inr fits ↦ elim (Bool-cases done) [
            | inl complete ↦
                finished-Turn (g ∙ ap some complete) (finish sock m (held m w s)) refl
                  (ground (arith, e, f, g))
            | inr partial ↦ goes_on m n w r (ground (arith, e, f, g))
          ]
        ]
      ]
    ]

  pub recv_loop-Turn :
      (fuel : ℕ) (msg : Message) (s : Server S) (l : Loop S)
      → recv_loop k (suc fuel) sock msg s ≡ some l
      → Turn fuel msg s l
  unfolding recv_loop
  recv_loop-Turn fuel msg s l e = elim (Option-cases (Transfer.recv (k.recv sock) msg s.world)) [
    | inl f ↦ absurd (ground (arith, e, f))
    | inr ((m, ret, w), f) ↦ elim (Ret-cases ret) [
      | inl fail ↦ ends m ret w f (ground (arith, e, f))
      | inr (inl end) ↦ ends m ret w f (ground (arith, e, f))
      | inr (inr (n, more)) ↦
          progressed-Turn fuel msg s l m n w (f ∙ ap (λ x. some (m, x, w)) more)
            (ground (arith, e, f, more))
    ]
  ]
