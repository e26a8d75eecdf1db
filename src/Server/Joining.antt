-- ===== src/Server/Joining.antt =====
-- net_server.cpp, `OnRecv`: what one round delivers, joined to what the rounds behind it deliver.
use pserver.Prelude.{
  ℕ, ◌+◌, ◌<◌, ◌≡◌, sym, ap, ◌∙◌, ◌≢◌, inl, inr, List, [], ◌∷◌, ◌++◌, map, append_assoc, append-nil,
  Option, some, arith, length,
}
use mathlib.Core.List.{flatten}
use pserver.HashTable
use pserver.HashTable.Laws.{IsValid}
use pserver.Kernel.{Kernel}
use pserver.Message.{Message}
use pserver.Message.Padding.{receiving}
use pserver.Server.{Server}
use pserver.Server.Loop.{Loop, recv_loop}
use pserver.Server.Reassembly.{IsFrame, Clean, IsPartial, Delivers, Reassembles, Keeps}

module _ {S : Type 0} (sock : ℕ) (stream : S → List ℕ) where
  -- Some bytes first, then the rest of the loop.
  pub Delivers-more :
      {s t s' : Server S} {h rest : List ℕ} {fs : List (List ℕ)} (bytes : List ℕ) {m : Message}
      → stream s.world ≡ bytes ++ stream t.world
      → t.packages ≡ s.packages
      → Keeps sock stream s t m
      → Delivers sock stream t s' (h ++ bytes) rest fs
      → Delivers sock stream s s' h rest fs
  Delivers-more {s} {t} {s'} {h} {rest} {fs} bytes e p k d = record {
    read = bytes ++ d.read;
    consumed = e ∙ (ap (◌++◌ bytes) d.consumed ∙ sym (append_assoc bytes d.read (stream s'.world)));
    split = sym (append_assoc h bytes d.read) ∙ d.split;
    frames = d.frames;
    queued = d.queued ∙ ap (λ q. q.messages ++ map (λ f. (sock, receiving f)) fs) p;
    permits = d.permits ∙ ap (λ q. q.permits + length fs) p;
    others = λ j ne. d.others j ne ∙ k.others j ne;
    sends = d.sends ∙ k.sends;
    valid = d.valid;
  }

  -- A packet first, then the rest of the loop.
  pub Delivers-queued :
      {s t s' : Server S} {rest : List ℕ} {fs : List (List ℕ)} (g : List ℕ) {m : Message}
      → IsFrame g
      → stream t.world ≡ stream s.world
      → t.packages.messages ≡ s.packages.messages ++ (sock, receiving g) ∷ []
      → t.packages.permits ≡ s.packages.permits + 1
      → Keeps sock stream s t m
      → Delivers sock stream t s' [] rest fs
      → Delivers sock stream s s' g rest (g ∷ fs)
  unfolding flatten
  Delivers-queued {s} {t} {s'} {rest} {fs} g frame w p n k d = record {
    read = d.read;
    consumed = sym w ∙ d.consumed;
    split = ap (◌++◌ g) d.split ∙ sym (append_assoc g (flatten fs) rest);
    frames = (frame, d.frames);
    queued =
        let later = map (λ f. (sock, receiving f)) fs in
        d.queued
        ∙ (ap (λ q. q ++ later) p
            ∙ append_assoc s.packages.messages ((sock, receiving g) ∷ []) later);
    permits = omega (arith, d.permits);
    others = λ j ne. d.others j ne ∙ k.others j ne;
    sends = d.sends ∙ k.sends;
    valid = d.valid;
  }

  pub Delivers-none :
      {s s' : Server S} {h : List ℕ}
      → stream s.world ≡ stream s'.world
      → s'.packages ≡ s.packages
      → ((j : ℕ) → j ≢ sock → HashTable.find j s'.recv_list ≡ HashTable.find j s.recv_list)
      → s'.send_list ≡ s.send_list
      → IsValid s'.recv_list
      → Delivers sock stream s s' h h []
  unfolding flatten
  Delivers-none {s} {s'} {h} e p o q v = record {
    read = [];
    consumed = e;
    split = append-nil h;
    frames = tt;
    queued = ap (λ q. q.messages) p ∙ sym (append-nil s.packages.messages);
    permits = omega (arith, ap (λ q. q.permits) p);
    others = o;
    sends = q;
    valid = v;
  }

  -- What the loop needs of a server whose packet holds `h`.
  pub record Ready (s : Server S) (h : List ℕ) : Type 0 where
    pub clean : Clean (h ++ stream s.world)
    pub partial : IsPartial h
    pub valid : IsValid s.recv_list
    pub present : HashTable.find sock s.recv_list ≡ some (receiving h)

  module _ (k : Kernel S) where
    -- What a later state delivers, an earlier one does.
    pub transfer :
        {s t : Server S} {h h' : List ℕ} {r r' : Option (Loop S)}
        (f : List (List ℕ) → List (List ℕ))
        → ((s' : Server S) (rest : List ℕ) (fs : List (List ℕ))
            → Delivers sock stream t s' h' rest fs
            → Delivers sock stream s s' h rest (f fs))
        → r ≡ r'
        → Reassembles sock stream k t h' r'
        → Reassembles sock stream k s h r
    transfer f step e (inl d) = inl (record {
      fs = f d.fs;
      rest = d.rest;
      after = d.after;
      ret = d.ret;
      result = e ∙ d.result;
      asked = d.asked;
      from = d.from;
      wanted = d.wanted;
      no_bytes = d.no_bytes;
      partial = d.partial;
      kept = d.kept;
      delivers = step d.after d.rest d.fs d.delivers;
    })
    transfer f step e (inr d) = inr (record {
      fs = f d.fs;
      lost = d.lost;
      before = d.before;
      result = e ∙ d.result;
      crowded = d.crowded;
      whole = d.whole;
      gone = d.gone;
      delivers = step d.before d.lost d.fs d.delivers;
    })

    abbrev pub Loops : ℕ → Type 0
    Loops fuel =
        (s : Server S) (h : List ℕ)
        → length (stream s.world) < fuel
        → Ready s h
        → Reassembles sock stream k s h (recv_loop k fuel sock (receiving h) s)
