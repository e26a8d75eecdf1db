-- ===== src/PackageList/Laws.antt =====
-- The queue as the handlers see it: a packet is given out once, in order, and none is stuck.
use pserver.Prelude.{
  ℕ, ◌+◌, ◌≤◌, ◌≡◌, refl, ap, List, [], ◌∷◌, ◌++◌, Option, none, some, arith, ◌==◌, if◌then◌else◌,
  ◌≢◌, ==_ne, ltb, inl, inr, Bool-cases, length, count_if, length-append,
}
use pserver.PackageList.{PackageList, new, msg_equal, get_msg, add_msg, remove_sock, del_msg}

-- What the two threads do to the queue.
pub data Step {ℓ} (M : Type ℓ) : Type ℓ where
  add : M → ℕ → Step M
  get : Step M
  del : ℕ → Step M

module _ {ℓ} {M : Type ℓ} where
  unfoldable pub step : PackageList M → Step M → PackageList M
  step l (add msg sock) = (add_msg msg sock l).0
  step l get = (get_msg l).0
  step l (del sock) = del_msg sock l

  unfoldable pub run : PackageList M → List (Step M) → PackageList M
  run l [] = l
  run l (s ∷ ss) = run (step l s) ss

  -- Each queued packet has a permit, and no socket has more than 201 packets in the queue.
  pub record IsValid (l : PackageList M) : Type ℓ where
    pub covered : length l.messages ≤ l.permits
    pub bounded : (sock : ℕ) → count_if (msg_equal sock) l.messages ≤ 201

  length-remove_sock-le : (sock : ℕ) (ms : List (ℕ × M)) → length (remove_sock sock ms) ≤ length ms
  unfolding remove_sock
  length-remove_sock-le sock [] = omega arith
  length-remove_sock-le sock (node ∷ rest) = ground (arith, length-remove_sock-le sock rest)

  count-remove_sock :
      (sock j : ℕ) (ms : List (ℕ × M))
      → count_if (msg_equal j) (remove_sock sock ms)
        ≡ (if sock == j then 0 else count_if (msg_equal j) ms)
  unfolding remove_sock
  count-remove_sock sock j [] = ground arith
  count-remove_sock sock j (node ∷ rest) = ground (arith, count-remove_sock sock j rest)

  count-append :
      (sock : ℕ) (xs ys : List (ℕ × M))
      → count_if (msg_equal sock) (xs ++ ys)
        ≡ count_if (msg_equal sock) xs + count_if (msg_equal sock) ys
  count-append sock [] ys = omega arith
  count-append sock (x ∷ xs) ys = ground (arith, count-append sock xs ys)

  pub add_msg-IsValid :
      (msg : M) (sock : ℕ) (l : PackageList M) → IsValid l → IsValid (add_msg msg sock l).0
  unfolding add_msg
  add_msg-IsValid msg sock l v = record {
    covered = ground (arith, length-append l.messages ((sock, msg) ∷ []));
    bounded = λ j. ground (arith, v.bounded j, count-append j l.messages ((sock, msg) ∷ []));
  }

  pub get_msg-IsValid :
      (ms : List (ℕ × M)) (l : PackageList M) → l.messages ≡ ms → IsValid l → IsValid (get_msg l).0
  unfolding get_msg
  get_msg-IsValid [] l e v = record {
    covered = ground arith;
    bounded = λ j. ground (arith, v.bounded j);
  }
  get_msg-IsValid (m ∷ ms) l e v = record {
    covered = ground arith;
    bounded = λ j. ground (arith, v.bounded j);
  }

  pub del_msg-IsValid : (sock : ℕ) (l : PackageList M) → IsValid l → IsValid (del_msg sock l)
  unfolding del_msg
  del_msg-IsValid sock l v = record {
    covered = omega (arith, v.covered, length-remove_sock-le sock l.messages);
    bounded = λ j. ground (arith, v.bounded j, count-remove_sock sock j l.messages);
  }

  step-IsValid : (l : PackageList M) (s : Step M) → IsValid l → IsValid (step l s)
  unfolding step
  step-IsValid l (add msg sock) v = add_msg-IsValid msg sock l v
  step-IsValid l get v = get_msg-IsValid l.messages l refl v
  step-IsValid l (del sock) v = del_msg-IsValid sock l v

  pub new-IsValid : IsValid new
  unfolding new
  new-IsValid = record { covered = omega arith; bounded = λ j. omega arith }

  run-IsValid : (l : PackageList M) (ss : List (Step M)) → IsValid l → IsValid (run l ss)
  unfolding run
  run-IsValid l [] v = v
  run-IsValid l (s ∷ ss) v = run-IsValid (step l s) ss (step-IsValid l s v)

  -- After any sequence of calls each queued packet has a permit and no socket has more than 201
  -- packets in the queue.
  pub run-new-IsValid : (ss : List (Step M)) → IsValid (run new ss)
  run-new-IsValid ss = run-IsValid new ss new-IsValid

  -- `GetMsg` on a list of packets: the oldest with its socket, or null on no packet.
  abbrev pub Gives : List (ℕ × M) → PackageList M × Option (ℕ × M) → Type ℓ
  Gives [] r = (r.1 ≡ none) × (r.0.messages ≡ [])
  Gives (node ∷ rest) r = (r.1 ≡ some node) × (r.0.messages ≡ rest)

  get_msg-Gives :
      (l : PackageList M) (ms : List (ℕ × M))
      → l.messages ≡ ms
      → length l.messages ≤ l.permits
      → Gives ms (get_msg l)
  unfolding get_msg
  get_msg-Gives l [] e h = ground arith
  get_msg-Gives l (node ∷ rest) e h = ground (arith, ap length e)

  -- The permits that `DelMsg` leaves over and the failed waits never hide a packet: after any
  -- sequence of calls `GetMsg` takes the oldest packet out, and gives null only on the empty queue.
  pub get_msg-run : (ss : List (Step M)) → Gives (run new ss).messages (get_msg (run new ss))
  get_msg-run ss =
      get_msg-Gives (run new ss) (run new ss).messages refl (run-new-IsValid ss).covered

  -- the packets of one socket
  pub of_sock : ℕ → List (ℕ × M) → List (ℕ × M)
  of_sock sock [] = []
  of_sock sock (node ∷ rest) =
      if msg_equal sock node then node ∷ of_sock sock rest else of_sock sock rest

  of_sock-append :
      (sock j : ℕ) (msg : M) (ms : List (ℕ × M))
      → j ≢ sock
      → of_sock j (ms ++ (sock, msg) ∷ []) ≡ of_sock j ms
  unfolding of_sock
  of_sock-append sock j msg [] ne = rw (==_ne sock j ne) refl
  of_sock-append sock j msg (node ∷ ms) ne = ground (arith, of_sock-append sock j msg ms ne)

  pub of_sock-other :
      (sock j : ℕ) (msg : M) (ms : List (ℕ × M))
      → j ≢ sock
      → of_sock j ((sock, msg) ∷ ms) ≡ of_sock j ms
  unfolding of_sock
  of_sock-other sock j msg ms ne = rw (==_ne sock j ne) refl

  of_sock-remove_sock :
      (sock j : ℕ) (ms : List (ℕ × M))
      → of_sock j (remove_sock sock ms) ≡ (if sock == j then [] else of_sock j ms)
  unfolding of_sock remove_sock
  of_sock-remove_sock sock j [] = ground arith
  of_sock-remove_sock sock j (node ∷ rest) = ground (arith, of_sock-remove_sock sock j rest)

  -- `AddMsg` of a packet of another socket, whether it is taken or not.
  pub of_sock-add_msg :
      (sock j : ℕ) (msg : M) (l : PackageList M)
      → j ≢ sock
      → of_sock j (add_msg msg sock l).0.messages ≡ of_sock j l.messages
  unfolding add_msg
  of_sock-add_msg sock j msg l ne =
      elim (Bool-cases (ltb 200 (count_if (msg_equal sock) l.messages))) [
        | inl full ↦ rw full refl
        | inr room ↦ rw room (of_sock-append sock j msg l.messages ne)
      ]

  -- `DelMsg` takes out every packet of the socket, and keeps the packets of each other socket in
  -- their order.
  pub of_sock-del_msg :
      (sock j : ℕ) (l : PackageList M)
      → of_sock j (del_msg sock l).messages ≡ (if sock == j then [] else of_sock j l.messages)
  unfolding del_msg
  of_sock-del_msg sock j l = of_sock-remove_sock sock j l.messages
