-- ===== src/Threads/Network.antt =====
-- The system calls with several sockets, and the pieces that come in on each.
use pserver.Prelude.{ℕ, ◌≡◌, ◌≢◌, ◌==◌, if◌then◌else◌, List, [], ◌∷◌, ◌++◌}
use pserver.Kernel.{
  Kernel, TakesAtMost, SendLaws, StreamLaws, DrainLaws, OpenLaws, PeerLaws, Events, ctl_mod,
}

-- The pieces of the socket `j` in a sequence of events, as one stream.
abbrev pub bytes_of : ℕ → List (ℕ × List ℕ) → List ℕ
bytes_of j [] = []
bytes_of j ((sock, bytes) ∷ cs) = if sock == j then bytes ++ bytes_of j cs else bytes_of j cs

-- The calls on the socket `sock` and its peer leave `f` alone.
pub record Apart {S : Type 0} (k : Kernel S) (sock : ℕ) (more : List ℕ → S → S) (f : S → List ℕ)
    : Type 0 where
  pub recv_apart : (n : ℕ) (w : S) → f (k.recv sock n w).1 ≡ f w
  pub send_apart : (bytes : List ℕ) (w : S) → f (k.send sock bytes w).1 ≡ f w
  pub ctl_apart : (events : Events) (w : S) → f (k.epoll_ctl ctl_mod sock events w).1 ≡ f w
  pub more_apart : (bytes : List ℕ) (w : S) → f (more bytes w) ≡ f w

-- What is documented of all sockets: each as before, and none disturbs another.
pub record NetworkLaws {S : Type 0} (k : Kernel S) (more : ℕ → List ℕ → S → S)
    (stream out : ℕ → S → List ℕ) : Type 0 where
  pub takes : TakesAtMost k
  pub sends : (sock : ℕ) → SendLaws k sock (out sock)
  pub reads : (sock : ℕ) → StreamLaws k sock (stream sock)
  pub drain : (sock : ℕ) → DrainLaws k sock (stream sock)
  pub opens : (sock : ℕ) → OpenLaws k sock (out sock)
  pub peers : (sock : ℕ) → PeerLaws k sock (stream sock) (out sock) (more sock)
  pub streams_apart : (j sock : ℕ) → j ≢ sock → Apart k sock (more sock) (stream j)
  pub outs_apart : (j sock : ℕ) → j ≢ sock → Apart k sock (more sock) (out j)
