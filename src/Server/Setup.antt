-- ===== src/Server/Setup.antt =====
-- net_server.cpp: `Init`, `Bind`, `SetSock` and `Connect`, the calls before the first event. A descriptor
-- is the 32-bit pattern of its `int`. What `Bind` leaves open where it fails stays open.
use pserver.Prelude.{
  ℕ, ◌-◌, ◌%◌, ◌^◌, ◌≡◌, Bool, true, false, not, List, [], ◌∷◌, Option, arith, if◌then◌else◌,
}
use pserver.Kernel.{Kernel, ctl_add}
use pserver.Lua.{Text}
use pserver.Server.{Server, is_negative, max_conn, epoll_in}

-- The system calls of the setup; a Boolean tells whether the call returned 0. `port_of` is `atoi`, and
-- `bind` gets the port after `htons` and no address for `INADDR_ANY`.
pub record SetupCalls (S : Type 0) : Type 0 where
  pub ignore_sigpipe : S → Bool × S
  pub set_rlimit : ℕ → S → Bool × S
  pub epoll_create : ℕ → S → ℕ × S
  pub socket : S → ℕ × S
  pub reuse_addr : ℕ → S → Bool × S
  pub bind : ℕ → Option Text → ℕ → S → Bool × S
  pub listen : ℕ → ℕ → S → Bool × S
  pub keep_alive : ℕ → S → S
  pub non_block : ℕ → S → S
  pub port_of : Text → ℕ

-- What is logged.
pub data SetupError : Type 0 where
  sigaction_error rlimit_error socket_error reuse_error listen_error : SetupError
  bind_error : Option Text → Text → SetupError

module _ {S : Type 0} (k : Kernel S) (c : SetupCalls S) where
  unfoldable pub set_sock : ℕ → S → S
  set_sock sock w = c.non_block sock (c.keep_alive sock w)

  -- `Init`: without the limit on descriptors it goes on
  unfoldable pub init : ℕ → Server S → Bool × List SetupError × Server S
  init max_con s =
      let (ignored, w1) = c.ignore_sigpipe s.world in
      if not ignored
      then (false, sigaction_error ∷ [], record s { world = w1 })
      else (let (limited, w2) = c.set_rlimit max_con w1 in
          let (fd, w3) = c.epoll_create max_conn w2 in
          (
            not (is_negative fd),
            if limited then [] else rlimit_error ∷ [],
            record s { world = w3 },
          ))

  -- `Bind`
  unfoldable pub bind : Option Text → Text → Server S → Bool × List SetupError × Server S
  unfolding set_sock
  bind ip port s =
      let (sock, w1) = c.socket s.world in
      let s1 = record s { listen_sock = sock; world = w1 } in
      if is_negative sock
      then (false, socket_error ∷ [], s1)
      else (let (reused, w2) = c.reuse_addr sock w1 in
          if not reused
          then (false, reuse_error ∷ [], record s1 { world = w2 })
          else (let (bound, w3) = c.bind sock ip (c.port_of port % 2 ^ 16) w2 in
              if not bound
              then (false, bind_error ip port ∷ [], record s1 { world = w3 })
              else (let (listens, w4) = c.listen sock 5 w3 in
                  if not listens
                  then (false, listen_error ∷ [], record s1 { world = w4 })
                  else (let (added, w5) = k.epoll_ctl ctl_add sock epoll_in (set_sock sock w4) in
                      if not added
                      then (false, [], record s1 { world = w5 })
                      else (true, [], record s1 { world = c.non_block sock w5 })))))

  -- `Init` and `Bind` change nothing but the listener and the world.
  pub init-server :
      (max_con : ℕ) (s : Server S)
      → (init max_con s).2 ≡ record s { world = (init max_con s).2.world }
  unfolding init
  init-server max_con s = ground arith

  pub bind-server :
      (ip : Option Text) (port : Text) (s : Server S)
      → (bind ip port s).2
        ≡ record s { listen_sock = (c.socket s.world).0; world = (bind ip port s).2.world }
  unfolding bind
  bind-server ip port s = ground arith

  -- `Connect` is not written yet
  unfoldable pub connect : Text → Text → Server S → ℕ × Server S
  connect ip port s = (2 ^ 32 - 1, s)

  -- `ClearTimeOutConnect` has no body
  unfoldable pub clear_time_out_connect : Server S → Server S
  clear_time_out_connect s = s

  -- A call of the setup with what is logged where it fails.
  abbrev Stage : Type 0
  Stage = (S → Bool × S) × List SetupError

  -- The stages one after the other, up to the first that fails.
  pub attempt : List Stage → S → Bool × List SetupError × S
  attempt [] w = (true, [], w)
  attempt ((call, errors) ∷ stages) w =
      if (call w).0 then attempt stages (call w).1 else (false, errors, (call w).1)

  abbrev stages : ℕ → Option Text → Text → List Stage
  stages sock ip port =
      (c.reuse_addr sock, reuse_error ∷ [])
      ∷ (c.bind sock ip (c.port_of port % 2 ^ 16), bind_error ip port ∷ [])
      ∷ (c.listen sock 5, listen_error ∷ [])
      ∷ ((λ w. k.epoll_ctl ctl_add sock epoll_in (set_sock sock w)), [])
      ∷ ((λ w. (true, c.non_block sock w)), [])
      ∷ []

  -- Once there is a socket, `Bind` is its stages in order up to the first that fails, with that one's
  -- line in the log, and the socket is kept as the listener in every case.
  pub bind-attempt :
      (ip : Option Text) (port : Text) (s : Server S)
      → is_negative (c.socket s.world).0 ≡ false
      → bind ip port s ≡ (
          let sock = (c.socket s.world).0 in
          let (done, errors, w) = attempt (stages sock ip port) (c.socket s.world).1 in
          (done, errors, record s { listen_sock = sock; world = w }))
  unfolding bind attempt
  bind-attempt ip port s e = ground (arith, e)
