-- ===== src/Tests/Many.antt =====
-- Two connections whose pieces come in turns, over a network in which every socket has its own bytes.
use pserver.Prelude.{
  ℕ, true, List, [], ◌∷◌, ◌++◌, none, ◌==◌, if◌then◌else◌, length, take, drop, min,
}
use pserver.HashTable
use pserver.Kernel.{Kernel, Received, got, recv_failed, sent}
use pserver.Server
use pserver.Server.Setup
use pserver.Threads.System.{System}
use pserver.Tests.Listening.{listening}

record Net : Type 0 where
  input : ℕ → List ℕ
  taken : ℕ → List ℕ
  error : ℕ

abbrev at : ℕ → List ℕ → (ℕ → List ℕ) → ℕ → List ℕ
at sock bytes f j = if sock == j then bytes else f j

abbrev net_recv : ℕ → ℕ → List ℕ → Net → Received × Net
net_recv sock count [] w = (recv_failed, record w { error = 11 })
net_recv sock count (b ∷ bs) w = (
  got (take (min 3 count) (b ∷ bs)),
  record w { input = at sock (drop (min 3 count) (b ∷ bs)) w.input },
)

abbrev more : ℕ → List ℕ → Net → Net
more sock bytes w = record w { input = at sock (w.input sock ++ bytes) w.input }

abbrev net : Kernel Net
net = record {
  recv = λ sock count w. net_recv sock count (w.input sock) w;
  send = λ sock bytes w. (
    sent (min 3 (length bytes)),
    record w {
      taken = at sock (w.taken sock ++ take (min 3 (length bytes)) bytes) w.taken;
      error = 11;
    },
  );
  errno = λ w. w.error;
  epoll_ctl = λ op sock events w. (true, w);
  epoll_wait = λ w. ([], w);
  accept = λ sock w. (0, w);
  set_sock = λ sock w. w;
  close = λ sock w. w;
  time = λ w. 7;
}

abbrev quiet : Net
quiet = record { input = λ j. []; taken = λ j. []; error = 0 }

abbrev first : System Net
first = record { server = listening net quiet; held = none }

-- a request of the test protocol on 5, in two pieces, and between them one of type 9 on 6
abbrev pieces : List (ℕ × List ℕ)
pieces = (5, 0 ∷ 0 ∷ 1 ∷ []) ∷ (6, 0 ∷ 0 ∷ 9 ∷ 0 ∷ []) ∷ (5, 0 ∷ 3 ∷ []) ∷ []

abbrev packets : ℕ → List (List ℕ)
packets j =
    if 5 == j then (0 ∷ 0 ∷ 1 ∷ 0 ∷ []) ∷ [] else if 6 == j then (0 ∷ 0 ∷ 9 ∷ 0 ∷ []) ∷ [] else []

abbrev part : ℕ → List ℕ
part j = if 5 == j then 3 ∷ [] else []
