-- ===== src/Server/Termination.antt =====
-- net_server.cpp, `OnRecv`: the receive loop ends. `stream` is what the peer has sent on the socket and
-- the program has not read.
pub mod Events
pub mod Despatch
use pserver.Prelude.{
  ℕ, zero, suc, ◌-◌, ◌<◌, ◌≡◌, refl, ap, ◌∙◌, ◌≢◌, inl, inr, Bool, true, false, ◌||◌, List, Option,
  none, some, arith, leb, ltb, ◌==◌, if◌then◌else◌, Bool-cases, Option-cases, length, length-append,
  ◌>>=◌,
}
use pserver.HashTable
use pserver.Kernel.{Kernel, StreamLaws, Received, got, recv_failed}
use pserver.Bytes.{poke}
use pserver.Message.{Message, get_length, new}
use pserver.Message.Transfer
use pserver.Message.Transfer.{Ret, count, failed, store}
use pserver.PackageList
use pserver.Server.{Server, is_negative, update_connect_time, close_connect}
use pserver.Server.Loop.{
  Loop, ended, returned, out_of_fuel, forget, finish, recv_loop, after_loop, on_recv,
  close_and_return,
}
use pserver.Server.Turns.{held, ends, closes, queues, goes_on, recv_loop-Turn, finish-outside}

store-got :
    (a : Received) (m m' : Message) (n : ℕ)
    → store a m ≡ some (m', count (suc n))
    → (bytes : List ℕ) × (a ≡ got bytes) × (0 < length bytes)
unfolding store
store-got recv_failed m m' n e = absurd (ground (arith, e))
store-got (got bytes) m m' n e = elim (Option-cases (poke m.buffer m.recv_len bytes)) [
  | inl f ↦ absurd (ground (arith, e, f))
  | inr (c, f) ↦ (bytes, refl, ground (arith, e, f))
]

module _ {S : Type 0} (k : Kernel S) (sock : ℕ) (stream : S → List ℕ)
    (laws : StreamLaws k sock stream) where
  stored :
      (wanted : ℕ) (m m1 : Message) (ret : Ret) (n : ℕ) (w w' : S)
      → store (k.recv sock wanted w).0 m ≡ some (m1, ret)
      → ret ≡ count (suc n)
      → (k.recv sock wanted w).1 ≡ w'
      → length (stream w') < length (stream w)
  stored wanted m m1 ret n w w' e r same =
      let (bytes, f, some_) =
        store-got (k.recv sock wanted w).0 m m1 n (e ∙ ap (λ x. some (m1, x)) r) in
      let (split, _) =
        laws.recv_got wanted w (k.recv sock wanted w).1 bytes
          (ap (λ x. (x, (k.recv sock wanted w).1)) f) in
      ground (arith, split, same, length-append bytes (stream (k.recv sock wanted w).1))

  module _ (m m' : Message) (n : ℕ) (w w' : S) where
    recv_head-shrinks :
        Transfer.recv_head (k.recv sock) m w ≡ some (m', count (suc n), w')
        → length (stream w') < length (stream w)
    unfolding Transfer.recv_head
    recv_head-shrinks e = elim (Option-cases (store (k.recv sock (4 - m.recv_len) w).0 m)) [
      | inl f ↦ absurd (ground (arith, e, f))
      | inr ((m1, ret), f) ↦ elim (Bool-cases (m1.recv_len == 4)) [
        | inr short ↦
            stored (4 - m.recv_len) m m1 ret n w w' f (ground (arith, e, f)) (ground (arith, e, f))
        | inl full ↦ elim (Option-cases (get_length m1)) [
          | inl g ↦ absurd (ground (arith, e, f, g))
          | inr (len, g) ↦ elim (Bool-cases (ltb 0xffff len)) [
            | inl long ↦ absurd (ground (arith, e, f, g))
            | inr fits ↦
                stored (4 - m.recv_len) m m1 ret n w w' f (ground (arith, e, f, g))
                  (ground (arith, e, f, g))
          ]
        ]
      ]
    ]

    recv_body-shrinks :
        Transfer.recv_body (k.recv sock) m w ≡ some (m', count (suc n), w')
        → length (stream w') < length (stream w)
    unfolding Transfer.recv_body
    recv_body-shrinks e = elim (Option-cases (get_length m)) [
      | inl g ↦ absurd (ground (arith, e, g))
      | inr (len, g) ↦ elim (Bool-cases (ltb len m.recv_len)) [
        | inl wrong ↦ absurd (ground (arith, e, g))
        | inr right ↦ elim (Option-cases (store (k.recv sock (len - m.recv_len) w).0 m)) [
          | inl f ↦ absurd (ground (arith, e, f, g))
          | inr ((m1, ret), f) ↦
              stored (len - m.recv_len) m m1 ret n w w' f (ground (arith, e, f, g))
                (ground (arith, e, f, g))
        ]
      ]
    ]

    recv-shrinks :
        Transfer.recv (k.recv sock) m w ≡ some (m', count (suc n), w')
        → length (stream w') < length (stream w)
    unfolding Transfer.recv
    recv-shrinks e = elim (Bool-cases (ltb m.recv_len 4)) [
      | inl head ↦ recv_head-shrinks (ground (arith, e))
      | inr body ↦ recv_body-shrinks (ground (arith, e))
    ]

  -- A round that ends the handler, or goes on.
  closed_ends : (s : Server S) → close_and_return k sock s ≢ some out_of_fuel
  closed_ends s e = elim (Option-cases (close_connect k sock s)) [
    | inl f ↦ absurd (ground (arith, e, f))
    | inr (s', f) ↦ absurd (ground (arith, e, f))
  ]

  recv_loop-ends :
      (fuel : ℕ) (msg : Message) (s : Server S)
      → length (stream s.world) < fuel
      → recv_loop k fuel sock msg s ≢ some out_of_fuel
  recv_loop-ends zero msg s lt e = absurd (omega arith)
  recv_loop-ends (suc fuel) msg s lt e = elim (recv_loop-Turn k sock fuel msg s out_of_fuel e) [
    | ends m ret w r f ↦ absurd (ground (arith, f))
    | closes m n w r f ↦ closed_ends (forget sock (held k sock m w s)) f
    | queues m fresh n w s' r whole f g ↦
        let less = recv-shrinks msg m n s.world w r in
        let (same, kept, _, _) = finish-outside k sock m fresh (held k sock m w s) s' true f in
        recv_loop-ends fuel fresh s' (omega (arith, less, ap (λ x. length (stream x)) same)) g
    | goes_on m n w r g ↦
        let less = recv-shrinks msg m n s.world w r in
        recv_loop-ends fuel m (held k sock m w s) (omega (arith, less)) g
  ]

  after_loop-ends : (l : Loop S) → l ≢ out_of_fuel → after_loop k sock l ≢ some none
  unfolding after_loop
  after_loop-ends out_of_fuel ne e = ne refl
  after_loop-ends (returned s) ne e = absurd (ground (arith, e))
  after_loop-ends (ended (count zero) s) ne e =
      elim (Option-cases (close_connect k sock (forget sock s))) [
        | inl f ↦ absurd (ground (arith, e, f))
        | inr (s', f) ↦ absurd (ground (arith, e, f))
      ]
  after_loop-ends (ended (count (suc n)) s) ne e = absurd (ground (arith, e))
  after_loop-ends (ended failed s) ne e =
      elim (Option-cases (close_connect k sock (forget sock s))) [
        | inl f ↦ absurd (ground (arith, e, f))
        | inr (s', f) ↦ absurd (ground (arith, e, f))
      ]

  loop_ends :
      (fuel : ℕ) (msg : Message) (s : Server S)
      → length (stream s.world) < fuel
      → (recv_loop k fuel sock msg s >>= after_loop k sock) ≢ some none
  loop_ends fuel msg s lt e = elim (Option-cases (recv_loop k fuel sock msg s)) [
    | inl f ↦ absurd (ground (arith, e, f))
    | inr (l, f) ↦
        after_loop-ends l (λ g. recv_loop-ends fuel msg s lt (f ∙ ap some g)) (ground (arith, e, f))
  ]

  -- Where `recv` gives the bytes of the stream in order and no byte where it fails: with more fuel than
  -- there are unread bytes, the loop of `OnRecv` does not run out of fuel, from any state of the server and
  -- on any bytes, well formed or not, however `recv` cuts them up: it comes back, or it has a fault.
  pub on_recv-ends :
      (fuel : ℕ) (s : Server S) → length (stream s.world) < fuel → on_recv k fuel sock s ≢ some none
  unfolding on_recv
  on_recv-ends fuel s lt e = elim (Bool-cases (is_negative sock || leb 4096 sock)) [
    | inl out ↦ absurd (ground (arith, e, out))
    | inr fine ↦ elim (Option-cases (HashTable.find sock s.recv_list)) [
      | inr (msg, f) ↦ loop_ends fuel msg s lt (ground (arith, e, f, fine))
      | inl f ↦ elim (Option-cases new) [
        | inl g ↦ absurd (ground (arith, e, f, fine, g))
        | inr (fresh, g) ↦
            loop_ends fuel fresh (record s { recv_list = HashTable.insert sock fresh s.recv_list })
              lt (ground (arith, e, f, fine, g))
      ]
    ]
  ]
