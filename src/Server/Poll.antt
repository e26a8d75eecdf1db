-- ===== src/Server/Poll.antt =====
-- net_server.cpp: `AddEvent` and `DespatchEvent` with the accept loop and the branches on the events.
use pserver.Prelude.{
  ℕ, zero, suc, Bool, true, not, ◌||◌, List, [], ◌∷◌, Option, none, some, leb, ltb, ◌==◌,
  if◌then◌else◌,
}
use pserver.HashTable
use pserver.Kernel.{Kernel, Events, ctl_add}
use pserver.Server.{Server, max_conn, epoll_in, update_connect_time, close_connect, on_send}
use pserver.Server.Loop.{on_recv}

module _ {S : Type 0} (k : Kernel S) where
  unfoldable pub add_event : ℕ → Server S → Bool × Server S
  add_event sock s =
      let (done, world) = k.epoll_ctl ctl_add sock epoll_in s.world in
      (done, record s { world = world })

  -- `OnAccept` of the base class takes every connection
  abbrev on_accept : ℕ → Bool
  on_accept sock = true

  abbrev close_sock : ℕ → Server S → Server S
  close_sock sock s = record s { world = k.close sock s.world }

  -- the body of the accept loop, for a socket above 0
  unfoldable pub accept_one : ℕ → Server S → Server S
  unfolding add_event
  accept_one sock s =
      if leb max_conn sock
      then close_sock sock s
      else if not (on_accept sock)
      then close_sock sock s
      else (let (added, s') = add_event sock (record s { world = k.set_sock sock s.world }) in
          update_connect_time sock (if added then s' else close_sock sock s'))

  -- `while ((acceptSock = accept(…)) > 0)`; `none` is a loop out of fuel
  unfoldable pub accept_loop : ℕ → Server S → Option (Server S)
  unfolding accept_one
  accept_loop zero s = none
  accept_loop (suc fuel) s =
      let (sock, world) = k.accept s.listen_sock s.world in
      let s' = record s { world = world } in
      let next = accept_loop fuel (accept_one sock s') in if ltb 0 sock then next else some s'

  abbrev pub when :
      Bool → (Server S → Option (Option (Server S))) → Server S → Option (Option (Server S))
  when b f s = if b then f s else some (some s)

  infixl 5 ◌and_then◌
  abbrev pub ◌and_then◌ :
      Option (Option (Server S))
      → (Server S → Option (Option (Server S)))
      → Option (Option (Server S))
  none and_then f = none
  some none and_then f = some none
  some (some s) and_then f = f s

  abbrev pub done : Option (Server S) → Option (Option (Server S))
  done none = none
  done (some s) = some (some s)

  -- one entry of the array that `epoll_wait` filled
  unfoldable pub on_event : ℕ → ℕ × Events → Server S → Option (Option (Server S))
  on_event fuel (sock, events) s =
      if sock == s.listen_sock
      then some (accept_loop fuel s)
      else (when events.epollin (on_recv k fuel sock) s
          and_then when events.epollout (λ s'. done (on_send k sock s'))
          and_then when (events.epollerr || events.epollhup) (λ s'. done (
              close_connect k sock
                (record s' { recv_list = (HashTable.erase sock s'.recv_list).0 }))))

  unfoldable pub on_events : ℕ → List (ℕ × Events) → Server S → Option (Option (Server S))
  unfolding on_event
  on_events fuel [] s = some (some s)
  on_events fuel (e ∷ es) s = on_event fuel e s and_then on_events fuel es

  unfoldable pub despatch_event : ℕ → Server S → Option (Option (Server S))
  unfolding on_events
  despatch_event fuel s =
      let (events, world) = k.epoll_wait s.world in
      on_events fuel events (record s { world = world })
