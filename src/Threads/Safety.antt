-- ===== src/Threads/Safety.antt =====
-- server.cpp: what holds whenever a thread looks at the shared state, and the handler thread in it.
use pserver.Prelude.{
  ℕ, ◌+◌, ◌-◌, ◌*◌, ◌≤◌, ◌≡◌, refl, sym, subst, inl, inr, false, ◌&&◌, List, [], ◌∷◌, ◌++◌, Option,
  none, some, arith, ltb, ◌==◌, Bool-cases, length, All, Returns,
}
use pserver.Despatch.Laws.{run_handler}
use pserver.Kernel.{Kernel, TakesAtMost}
use pserver.Message.{Message, get_type}
use pserver.Bytes.{peek, peek_u16, head_cases}
use pserver.PackDeal.{ptl_test, ptl_test_fun, on_sock_close}
use pserver.PackDeal.Laws.{ptl_test_reply_lem}
use pserver.PackageList
use pserver.Server
use pserver.Server.{type_error, observe_connect_close, Server, get_package}
use pserver.Server.Sound.{IsSound, HasHeader, start-IsSound}
use pserver.Server.Sound.Closing.{
  world-IsSound, log-IsSound, listen-IsSound, time-IsSound, get_package-IsSound,
}
use pserver.Server.Sound.Sending.{send_msg-IsSound}
use pserver.Server.Parts.{Part-IsSound}
use pserver.Server.Setup.{init-server, bind-server}
use pserver.Server.Sound.Polling.{Kept, on_event-Kept}
use pserver.Threads.{
  PServer, is_running, stop, signal_round, timer_round, package_deal, deal, reply_by, log_received,
}
use pserver.Threads.Handling.{Registered, despatched}
use pserver.Threads.System.{
  System, start, Step, inits, binds, event, part, take_package, deal_package, timer_wakes,
  clock_syncs, stops, outside, Reach, started, then_step,
}

-- A packet in the hands of the handler thread.
abbrev pub HeldHeader : Option (ℕ × Message) → Type 0
HeldHeader none = Unit {0}
HeldHeader (some node) = HasHeader node

pub record IsSafe {S : Type 0} (k : Kernel S) (a : System S) : Type 0 where
  pub sound : IsSound a.server.sockets
  pub registered : Registered k a.server
  pub header : HeldHeader a.held

pub get_type-Returns : (m : Message) → 4 ≤ length m.buffer → Returns (get_type m) λ _. Unit {0}
unfolding get_type peek_u16 peek
get_type-Returns m long =
    let (a, b, c, d, rest, e) = head_cases m.buffer long in (c + 256 * d, ground (arith, e), tt)

pop_front-header :
    (ms : List (ℕ × Message)) → All HasHeader ms → HeldHeader (PackageList.pop_front ms).1
unfolding PackageList.pop_front
pop_front-header [] h = tt
pop_front-header (node ∷ ms) h = h.0

pub get_package-header : {S : Type 0} (s : Server S) → IsSound s → HeldHeader (get_package s).1
unfolding get_package PackageList.get_msg
get_package-header s v = elim (Bool-cases (ltb 0 s.packages.permits)) [
  | inl open_ ↦ rw open_ (pop_front-header s.packages.messages v.whole)
  | inr closed ↦ rw closed tt
]

module _ {S : Type 0} (k : Kernel S) (takes : TakesAtMost k) where
  -- What a packet leaves behind it.
  abbrev pub Dealt : PServer S → PServer S → Type 0
  Dealt p p' =
      IsSound p'.sockets
      × Registered k p'
      × (p'.sockets.packages ≡ p.sockets.packages)
      × (p'.running ≡ p.running)

  replied :
      (sock : ℕ) (msg : Message) (s : Server S)
      → IsSound s
      → Returns
          (ptl_test_fun log_received (reply_by k) sock msg s)
          λ s'. IsSound s' × (s'.packages ≡ s.packages)
  unfolding ptl_test_fun
  replied sock msg s v =
      let ((values, reply), e, _) = ptl_test_reply_lem msg in
      let ((s', m), f, ok) =
        send_msg-IsSound k takes sock reply false (log_received sock s) (log-IsSound s v _) in
      (s', ground (arith, e, f), ok)

  pub deal-Returns :
      (p : PServer S) (sock : ℕ) (msg : Message)
      → IsSound p.sockets
      → Registered k p
      → 4 ≤ length msg.buffer
      → Returns (deal k sock msg p) (Dealt p)
  unfolding deal run_handler
  deal-Returns p sock msg v r long =
      let (type, t, _) = get_type-Returns msg long in
      let d = despatched k p sock type msg p.sockets r t in
      elim (Bool-cases (ptl_test == type)) [
        | inl test ↦
            let (s', f, (v', same)) = replied sock msg p.sockets v in
            (record p { sockets = s' }, ground (arith, d, f), (v', r, same, refl))
        | inr other ↦ (
          record p {
            sockets = record p.sockets { entries = p.sockets.entries ++ type_error sock type ∷ [] };
          },
          ground (arith, d),
          (log-IsSound p.sockets v _, r, refl, refl),
        )
      ]

  timer_round-IsSafe :
      (p : PServer S) (held : Option (ℕ × Message))
      → IsSafe k (record { server = p; held = held })
      → IsSafe k (record { server = timer_round p; held = held })
  unfolding timer_round
  timer_round-IsSafe p held v =
      elim (Bool-cases (is_running p && ltb 10 (p.sockets.cur_time - p.last_check))) [
        | inl due ↦ rw due (record {
          sound = log-IsSound p.sockets v.sound _;
          registered = v.registered;
          header = v.header;
        })
        | inr early ↦ rw early v
      ]

  signal_round-IsSafe :
      (p : PServer S) (held : Option (ℕ × Message))
      → IsSafe k (record { server = p; held = held })
      → IsSafe k (record { server = signal_round k p; held = held })
  unfolding signal_round
  signal_round-IsSafe p held v = elim (Bool-cases (is_running p)) [
    | inl on ↦ rw on (record {
      sound = time-IsSound p.sockets v.sound (k.time p.sockets.world);
      registered = v.registered;
      header = v.header;
    })
    | inr off ↦ rw off v
  ]

  Step-IsSafe : (a b : System S) → Step k a b → IsSafe k a → IsSafe k b
  unfolding stop
  Step-IsSafe _ _ (inits c max_con p held) v = record {
    sound =
        subst IsSound (sym (init-server k c max_con p.sockets)) (world-IsSound p.sockets v.sound _);
    registered = v.registered;
    header = v.header;
  }
  Step-IsSafe _ _ (binds c ip port p held) v = record {
    sound =
        subst IsSound (sym (bind-server k c ip port p.sockets))
          (listen-IsSound p.sockets v.sound _ _);
    registered = v.registered;
    header = v.header;
  }
  Step-IsSafe _ _ (event p held fuel e s on ends) v = record {
    sound = subst Kept ends (on_event-Kept k takes fuel e p.sockets v.sound);
    registered = v.registered;
    header = v.header;
  }
  Step-IsSafe _ _ (part p held s change) v = record {
    sound = Part-IsSound k takes p.sockets s change v.sound;
    registered = v.registered;
    header = v.header;
  }
  Step-IsSafe _ _ (take_package p on) v = record {
    sound = get_package-IsSound p.sockets v.sound;
    registered = v.registered;
    header = get_package-header p.sockets v.sound;
  }
  Step-IsSafe _ _ (deal_package p p' sock msg e) v =
      let (q, f, (sound, registered, _, _)) =
        deal-Returns p sock msg v.sound v.registered v.header in
      subst (λ x. IsSafe k (record { server = x; held = none })) {x = q} (ground (arith, e, f))
        (record { sound = sound; registered = registered; header = tt })
  Step-IsSafe _ _ (timer_wakes p held) v = timer_round-IsSafe p held v
  Step-IsSafe _ _ (clock_syncs p held) v = signal_round-IsSafe p held v
  Step-IsSafe _ _ (stops p held) v = record {
    sound = v.sound;
    registered = v.registered;
    header = v.header;
  }
  Step-IsSafe _ _ (outside p held world) v = record {
    sound = world-IsSound p.sockets v.sound world;
    registered = v.registered;
    header = v.header;
  }

  start-IsSafe : (world : S) (now : ℕ) → IsSafe k (start k world now)
  unfolding start package_deal observe_connect_close
  start-IsSafe world now = record {
    sound =
        time-IsSound (observe_connect_close on_sock_close (Server.new world))
          (start-IsSound on_sock_close world) now;
    registered = refl;
    header = tt;
  }

  -- Where `send` takes no more than it is given, in every state that the server comes to from its
  -- constructor on, before, between and behind `Init` and `Bind`, whatever the setup answers, whatever
  -- bytes and events the peers cause and however the threads take turns, also in the middle of an event
  -- and between the pieces of `CloseConnect`: both tables are well formed; the
  -- queue has no more packets than permits and at most 201 packets of one socket; every queued packet
  -- and the one in the hands of the handler thread has a whole header; a packet that is being received
  -- is at its header, at its body, or has a length that wrapped below its header;
  -- a packet that waits to be
  -- sent points at most to its end; the array of times has its length; a callback on closing is set;
  -- and the table of the handler thread holds the commands of `PackageDeal`.
  pub Reach-IsSafe :
      (world : S) (now : ℕ) (a : System S) → Reach k (start k world now) a → IsSafe k a
  Reach-IsSafe world now a started = start-IsSafe world now
  Reach-IsSafe world now a (then_step b _ r s) = Step-IsSafe b a s (Reach-IsSafe world now b r)
