-- ===== src/Server/Sound/Closing.antt =====
-- net_server.cpp, `CloseConnect` and the small operations: they keep the server sound.
use pserver.Prelude.{
  ℕ, ◌^◌, ◌<◌, ◌≡◌, refl, subst, ◌∙◌, inl, inr, ◌||◌, List, [], ◌∷◌, some, arith, leb, ltb,
  Bool-cases, Option-cases, set, All, length-set, Returns,
}
use pserver.HashTable
use pserver.HashTable.Laws.{erase-IsValid}
use pserver.HashTable.Holds.{Holds-erase}
use pserver.Kernel.{Kernel, no_events, ctl_del}
use pserver.Message.{Message}
use pserver.Message.Progress.{InProgress}
use pserver.PackageList
use pserver.PackageList.Laws
use pserver.Server.{Entry, Server, update_connect_time, get_package, close_connect}
use pserver.Server.Loop.{forget}
use pserver.Server.Sound.{CanSend, HasHeader, IsSound}

All-remove_sock :
    (sock : ℕ) (ms : List (ℕ × Message))
    → All HasHeader ms
    → All HasHeader (PackageList.remove_sock sock ms)
unfolding PackageList.remove_sock
All-remove_sock sock [] h = tt
All-remove_sock sock (node ∷ rest) h = elim (Bool-cases (PackageList.msg_equal sock node)) [
  | inl same ↦ rw same (All-remove_sock sock rest h.1)
  | inr other ↦ rw other (h.0, All-remove_sock sock rest h.1)
]

All-pop_front :
    (ms : List (ℕ × Message)) → All HasHeader ms → All HasHeader (PackageList.pop_front ms).0
unfolding PackageList.pop_front
All-pop_front [] h = h
All-pop_front (node ∷ ms) h = h.1

All-get_msg :
    (l : PackageList.PackageList Message)
    → All HasHeader l.messages
    → All HasHeader (PackageList.get_msg l).0.messages
unfolding PackageList.get_msg
All-get_msg l h = elim (Bool-cases (ltb 0 l.permits)) [
  | inr closed ↦ rw closed h
  | inl open_ ↦ rw open_ (All-pop_front l.messages h)
]

module _ {S : Type 0} (s : Server S) (v : IsSound s) where
  pub forget-IsSound : (sock : ℕ) → IsSound (forget sock s)
  forget-IsSound sock = record {
    receives = erase-IsValid sock s.recv_list v.receives;
    sends = v.sends;
    queue = v.queue;
    whole = v.whole;
    partial = Holds-erase InProgress sock s.recv_list v.receives v.partial;
    unsent = v.unsent;
    times = v.times;
    closes = v.closes;
  }

  pub world-IsSound : (w : S) → IsSound (record s { world = w })
  world-IsSound w = record {
    receives = v.receives;
    sends = v.sends;
    queue = v.queue;
    whole = v.whole;
    partial = v.partial;
    unsent = v.unsent;
    times = v.times;
    closes = v.closes;
  }

  pub log-IsSound : (entries : List Entry) → IsSound (record s { entries = entries })
  log-IsSound entries = record {
    receives = v.receives;
    sends = v.sends;
    queue = v.queue;
    whole = v.whole;
    partial = v.partial;
    unsent = v.unsent;
    times = v.times;
    closes = v.closes;
  }

  pub listen-IsSound : (sock : ℕ) (w : S) → IsSound (record s { listen_sock = sock; world = w })
  listen-IsSound sock w = record {
    receives = v.receives;
    sends = v.sends;
    queue = v.queue;
    whole = v.whole;
    partial = v.partial;
    unsent = v.unsent;
    times = v.times;
    closes = v.closes;
  }

  pub del_msg-IsSound :
      (sock : ℕ) → IsSound (record s { packages = PackageList.del_msg sock s.packages })
  unfolding PackageList.del_msg
  del_msg-IsSound sock = record {
    receives = v.receives;
    sends = v.sends;
    queue = PackageList.Laws.del_msg-IsValid sock s.packages v.queue;
    whole = All-remove_sock sock s.packages.messages v.whole;
    partial = v.partial;
    unsent = v.unsent;
    times = v.times;
    closes = v.closes;
  }

  -- what waits on a socket is dropped, and its time is reset
  pub erase_unsent-IsSound :
      (sock : ℕ)
      → IsSound (record s {
        send_list = (HashTable.erase sock s.send_list).0;
        last_connect = set s.last_connect sock 0;
      })
  erase_unsent-IsSound sock = record {
    receives = v.receives;
    sends = erase-IsValid sock s.send_list v.sends;
    queue = v.queue;
    whole = v.whole;
    partial = v.partial;
    unsent = Holds-erase CanSend sock s.send_list v.sends v.unsent;
    times = length-set s.last_connect sock 0 ∙ v.times;
    closes = v.closes;
  }

  pub time-IsSound : (now : ℕ) → IsSound (record s { cur_time = now })
  time-IsSound now = record {
    receives = v.receives;
    sends = v.sends;
    queue = v.queue;
    whole = v.whole;
    partial = v.partial;
    unsent = v.unsent;
    times = v.times;
    closes = v.closes;
  }

  pub update_connect_time-IsSound : (sock : ℕ) → IsSound (update_connect_time sock s)
  unfolding update_connect_time
  update_connect_time-IsSound sock = elim (Bool-cases (leb (2 ^ 31) sock || ltb 4096 sock)) [
    | inl out ↦ rw out v
    | inr within ↦ rw within (record {
      receives = v.receives;
      sends = v.sends;
      queue = v.queue;
      whole = v.whole;
      partial = v.partial;
      unsent = v.unsent;
      times = length-set s.last_connect sock s.cur_time ∙ v.times;
      closes = v.closes;
    })
  ]

  pub get_package-IsSound : IsSound (get_package s).0
  unfolding get_package
  get_package-IsSound = record {
    receives = v.receives;
    sends = v.sends;
    queue = PackageList.Laws.get_msg-IsValid s.packages.messages s.packages refl v.queue;
    whole = All-get_msg s.packages v.whole;
    partial = v.partial;
    unsent = v.unsent;
    times = v.times;
    closes = v.closes;
  }

-- `CloseConnect` on a socket of the array
module _ {S : Type 0} (s : Server S) (v : IsSound s) (k : Kernel S) (sock : ℕ) where
  pub closed : (ℕ → List Entry → List Entry) → Server S
  closed fun = record s {
    packages = PackageList.del_msg sock s.packages;
    send_list = (HashTable.erase sock s.send_list).0;
    last_connect = set s.last_connect sock 0;
    world = k.close sock (k.epoll_ctl ctl_del sock no_events s.world).1;
    entries = fun sock s.entries;
  }

  closed-IsSound : (fun : ℕ → List Entry → List Entry) → IsSound (closed fun)
  unfolding closed
  closed-IsSound fun =
      let s1 = record s { packages = PackageList.del_msg sock s.packages } in
      let s2 : Server S = record s1 {
        send_list = (HashTable.erase sock s1.send_list).0;
        last_connect = set s1.last_connect sock 0;
      } in
      let v2 = erase_unsent-IsSound s1 (del_msg-IsSound s v sock) sock in
      log-IsSound _ (world-IsSound s2 v2 _) _

  pub close_connect-IsSound : (s' : Server S) → close_connect k sock s ≡ some s' → IsSound s'
  unfolding close_connect
  close_connect-IsSound s' e = elim (Option-cases s.on_close) [
    | inl none' ↦ absurd (ground (arith, e))
    | inr (fun, f) ↦
        subst IsSound {x = closed fun} (unfold closed in ground (arith, e)) (closed-IsSound fun)
  ]

  pub close_connect-Returns : sock < 4097 → Returns (close_connect k sock s) IsSound
  unfolding close_connect
  close_connect-Returns lt = elim (Option-cases s.on_close) [
    | inl none' ↦ absurd (ground (arith, v.closes))
    | inr (fun, f) ↦ (closed fun, unfold closed in ground (arith, v.times), closed-IsSound fun)
  ]
