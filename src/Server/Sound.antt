-- ===== src/Server/Sound.antt =====
-- net_server.cpp: what holds of the server between two events, whatever the peers send.
pub mod Closing
pub mod Sending
pub mod Packets
pub mod Receiving
pub mod Polling
use pserver.Prelude.{
  ℕ, zero, suc, ◌+◌, ◌-◌, ◌*◌, ◌/◌, ◌%◌, ◌^◌, ◌≤◌, ◌<◌, ◌≡◌, refl, sym, ap, subst, ◌∙◌, ◌≢◌, ◌⊎◌,
  inl, inr, Bool, true, false, not, ◌&&◌, ◌||◌, List, [], ◌∷◌, ◌++◌, map, append_assoc, append-nil,
  Option, none, some, arith, leb, ltb, ◌==◌, ==_iff, if◌then◌else◌, Bool-cases, lt→ltb, not-ltb,
  ==_refl, ==_ne, Option-cases, length, get_elem?, get_or, set, count_if, take, drop, replicate,
  All, get_elem?-none, get_or-set_ne, is_none, length-append, length-set, length-take, length-drop,
  length-replicate, ◌>>=◌, ◌>>◌, Returns,
}
use pserver.HashTable
use pserver.HashTable.Laws.{IsValid, init-IsValid}
use pserver.HashTable.Holds.{Holds, Holds-new}
use pserver.Message.{Message}
use pserver.Message.Progress.{InProgress}
use pserver.PackageList
use pserver.PackageList.Laws
use pserver.Server.{Entry, Server, new, observe_connect_close, max_conn}

-- `m_sendBegin` does not point past the end.
abbrev pub CanSend : Message → Type 0
CanSend m = m.send_begin ≤ length m.buffer

-- A queued packet has a whole header.
abbrev pub HasHeader : ℕ × Message → Type 0
HasHeader node = 4 ≤ length node.1.buffer

pub record IsSound {S : Type 0} (s : Server S) : Type 0 where
  pub receives : IsValid s.recv_list
  pub sends : IsValid s.send_list
  pub queue : PackageList.Laws.IsValid s.packages
  pub whole : All HasHeader s.packages.messages
  pub partial : Holds InProgress s.recv_list
  pub unsent : Holds CanSend s.send_list
  pub times : length s.last_connect ≡ 4097
  pub closes : is_none s.on_close ≡ false

new_table-IsValid : IsValid {V = Message} HashTable.new
unfolding HashTable.new
new_table-IsValid = init-IsValid 512 (omega arith)

-- The server as `PServer` has it at the start, with the callback of `PackageDeal`.
pub start-IsSound :
    {S : Type 0} (fun : ℕ → List Entry → List Entry) (world : S)
    → IsSound (observe_connect_close fun (new world))
unfolding observe_connect_close new
start-IsSound fun world = record {
  receives = new_table-IsValid;
  sends = new_table-IsValid;
  queue = PackageList.Laws.new-IsValid;
  whole = unfold PackageList.new in tt;
  partial = Holds-new InProgress;
  unsent = Holds-new CanSend;
  times = length-replicate {A = ℕ} 4097 0;
  closes = refl;
}
