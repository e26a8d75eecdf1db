-- ===== src/Kernel.antt =====
-- The system calls that the server makes. They are not code of the repository: `Kernel` is what the
-- definitions take in their place, over a state that stands for everything outside the program.
use pserver.Prelude.{ℕ, ◌≤◌, take, ◌<◌, ◌≡◌, ◌≢◌, Bool, false, List, [], ◌++◌, length}

-- What `recv` and `send` return: a count with the bytes, or -1.
pub data Received : Type 0 where
  got : List ℕ → Received
  recv_failed : Received

pub data Sent : Type 0 where
  sent : ℕ → Sent
  send_failed : Sent

pub data EpollOp : Type 0 where
  ctl_add ctl_mod ctl_del : EpollOp

-- The events that the code waits for and is told of; `EPOLLET` is always set.
pub record Events : Type 0 where
  pub epollin : Bool
  pub epollout : Bool
  pub epollerr : Bool
  pub epollhup : Bool

abbrev pub no_events : Events
no_events = record { epollin = false; epollout = false; epollerr = false; epollhup = false }

abbrev pub eagain : ℕ
eagain = 11

-- The first argument of a call is the socket. `accept` gives 0 where it returns 0 or less, and
-- `epoll_ctl` tells whether it returned 0. `errno` is the value that a failed call left.
pub record Kernel (S : Type 0) : Type 0 where
  pub recv : ℕ → ℕ → S → Received × S
  pub send : ℕ → List ℕ → S → Sent × S
  pub errno : S → ℕ
  pub epoll_ctl : EpollOp → ℕ → Events → S → Bool × S
  pub epoll_wait : S → List (ℕ × Events) × S
  pub accept : ℕ → S → ℕ × S
  pub set_sock : ℕ → S → S
  pub close : ℕ → S → S
  pub time : S → ℕ

-- `recv` on one socket, as documented: at most the wanted bytes, in the order of the stream, and none
-- where the call fails or the stream has ended. `stream` is what the peer has sent and is not read.
pub record StreamLaws {S : Type 0} (k : Kernel S) (sock : ℕ) (stream : S → List ℕ) : Type 0 where
  pub recv_got :
      (count : ℕ) (s s' : S) (bytes : List ℕ)
      → k.recv sock count s ≡ (got bytes, s')
      → (stream s ≡ bytes ++ stream s') × (length bytes ≤ count)
  pub recv_none :
      (count : ℕ) (s s' : S) → k.recv sock count s ≡ (recv_failed, s') → stream s' ≡ stream s

-- A non-blocking socket, as documented: `recv` gives no byte only where none is there.
pub record DrainLaws {S : Type 0} (k : Kernel S) (sock : ℕ) (stream : S → List ℕ) : Type 0 where
  pub failed_empty :
      (count : ℕ) (s s' : S) → 0 < count → k.recv sock count s ≡ (recv_failed, s') → stream s' ≡ []
  pub end_empty :
      (count : ℕ) (s s' : S) → 0 < count → k.recv sock count s ≡ (got [], s') → stream s' ≡ []

-- `send` on one socket, as documented: it takes bytes from the front of what it is given, or none where
-- it fails, and no other call of the server puts bytes on the socket. `out` is what it has taken.
pub record SendLaws {S : Type 0} (k : Kernel S) (sock : ℕ) (out : S → List ℕ) : Type 0 where
  pub send_sent :
      (bytes : List ℕ) (n : ℕ) (s s' : S)
      → k.send sock bytes s ≡ (sent n, s')
      → (n ≤ length bytes) × (out s' ≡ out s ++ take n bytes)
  pub send_none :
      (bytes : List ℕ) (s s' : S) → k.send sock bytes s ≡ (send_failed, s') → out s' ≡ out s
  pub ctl_same :
      (op : EpollOp) (events : Events) (s : S) → out (k.epoll_ctl op sock events s).1 ≡ out s

-- `send` on any socket takes no more than it is given, as documented.
abbrev pub TakesAtMost : {S : Type 0} → Kernel S → Type 0
TakesAtMost {S} k =
    (sock : ℕ) (bytes : List ℕ) (n : ℕ) (s s' : S)
    → k.send sock bytes s ≡ (sent n, s')
    → n ≤ length bytes

-- `send` has not taken the whole of what it was given.
abbrev pub TakesPart : Sent → List ℕ → Type 0
TakesPart (sent n) bytes = n < length bytes
TakesPart send_failed bytes = Unit {0}

-- A connection that stays open, as documented: `recv` on it never reports its end and fails only
-- with `EAGAIN`, and it takes nothing that is to be sent. `out` is what `send` has taken.
pub record OpenLaws {S : Type 0} (k : Kernel S) (sock : ℕ) (out : S → List ℕ) : Type 0 where
  pub recv_open : (count : ℕ) (s s' : S) → 0 < count → k.recv sock count s ≢ (got [], s')
  pub recv_again :
      (count : ℕ) (s s' : S) → k.recv sock count s ≡ (recv_failed, s') → k.errno s' ≡ eagain
  pub recv_quiet : (count : ℕ) (s : S) → out (k.recv sock count s).1 ≡ out s

-- The peer of a connection: `more bytes` is what becomes of the world when it sends them. What it has
-- sent is left alone by `send` and by `epoll_ctl`.
pub record PeerLaws {S : Type 0} (k : Kernel S) (sock : ℕ) (stream out : S → List ℕ)
    (more : List ℕ → S → S) : Type 0 where
  pub more_stream : (bytes : List ℕ) (s : S) → stream (more bytes s) ≡ stream s ++ bytes
  pub more_out : (bytes : List ℕ) (s : S) → out (more bytes s) ≡ out s
  pub send_stream : (bytes : List ℕ) (s : S) → stream (k.send sock bytes s).1 ≡ stream s
  pub ctl_stream :
      (op : EpollOp) (events : Events) (s : S) → stream (k.epoll_ctl op sock events s).1 ≡ stream s
