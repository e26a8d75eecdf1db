-- ===== src/Server/Framing.antt =====
-- net_server.cpp, `OnRecv`: the packets of a stream are determined by its bytes.
use pserver.Prelude.{
  ℕ, ◌+◌, ◌≤◌, ◌<◌, ◌≡◌, refl, sym, ap, subst, ◌∙◌, inl, inr, List, [], ◌∷◌, ◌++◌, map,
  append_assoc, append-nil, Option, some, arith, length, count_if, All, length-append,
}
use mathlib.Core.List.{flatten}
use pserver.HashTable
use pserver.HashTable.Laws.{IsValid}
use pserver.Kernel.{Kernel, StreamLaws, DrainLaws}
use pserver.Message.Padding.{Narrow, target, receiving, target-append}
use pserver.PackageList
use pserver.Message.{Message}
use pserver.Message.Transfer.{Ret}
use pserver.Server.{Server}
use pserver.Server.Loop.{Loop, ended, recv_loop}
use pserver.Server.Reassembly.{IsFrame, Clean, IsPartial, Ended}
use pserver.Server.Delivery.{recv_loop-Reassembles}

append-cancel : (f g xs ys : List ℕ) → length f ≡ length g → f ++ xs ≡ g ++ ys → (f ≡ g) × (xs ≡ ys)
append-cancel [] [] xs ys l e = (refl, e)
append-cancel [] (y ∷ g) xs ys l e = absurd (omega arith)
append-cancel (x ∷ f) [] xs ys l e = absurd (omega arith)
append-cancel (x ∷ f) (y ∷ g) xs ys l e =
    let (p, q) = append-cancel f g xs ys (omega arith) (cc) in (cc, q)

same-length :
    (f xs : List ℕ) (g ys : List ℕ)
    → IsFrame f
    → IsFrame g
    → f ++ xs ≡ g ++ ys
    → length f ≡ length g
same-length f xs g ys a b e =
    let t : target f ≡ target g =
      sym (target-append f xs a.header) ∙ (ap target e ∙ target-append g ys b.header) in
    omega (arith, a.size, b.size)

-- No packet begins a part of a packet.
pub partial-frame : (tail f xs : List ℕ) → IsPartial tail → IsFrame f → tail ≡ f ++ xs → ⊥
partial-frame tail f xs p a e =
    let t : target tail ≡ target f = ap target e ∙ target-append f xs a.header in
    omega (arith, a.size, p.1, ap length e, length-append f xs)

Narrow-append : (f xs : List ℕ) → 4 ≤ length f → Narrow f → Narrow (f ++ xs)
Narrow-append [] xs h w = absurd (omega arith)
Narrow-append (a ∷ []) xs h w = absurd (omega arith)
Narrow-append (a ∷ b ∷ f) xs h w = w

-- A stream of packets that the code can handle, with a part of another at the end.
pub Clean-flatten :
    (gs : List (List ℕ)) (tail : List ℕ)
    → All IsFrame gs
    → IsPartial tail
    → Clean (flatten gs ++ tail)
unfolding flatten
Clean-flatten [] tail all p [] rest _ e = subst Narrow e p.0
Clean-flatten [] tail all p (f ∷ fs) rest frames e =
    absurd
      (partial-frame tail f (flatten fs ++ rest) p frames.0 (e ∙ append_assoc f (flatten fs) rest))
Clean-flatten (g ∷ gs) tail all p [] rest _ e = subst Narrow e (
    rw (append_assoc g (flatten gs) tail)
      (Narrow-append g (flatten gs ++ tail) all.0.header all.0.narrow))
Clean-flatten (g ∷ gs) tail all p (f ∷ fs) rest frames e =
    let e' : g ++ (flatten gs ++ tail) ≡ f ++ (flatten fs ++ rest) =
      sym (append_assoc g (flatten gs) tail) ∙ (e ∙ append_assoc f (flatten fs) rest) in
    let l = same-length g (flatten gs ++ tail) f (flatten fs ++ rest) all.0 frames.0 e' in
    Clean-flatten gs tail all.1 p fs rest frames.1
      (append-cancel g f (flatten gs ++ tail) (flatten fs ++ rest) l e').1

-- Two ways to read a stream as packets and a part of one are the same.
pub split_unique :
    (gs fs : List (List ℕ)) (tail rest : List ℕ)
    → All IsFrame gs
    → All IsFrame fs
    → IsPartial tail
    → IsPartial rest
    → flatten gs ++ tail ≡ flatten fs ++ rest
    → (gs ≡ fs) × (tail ≡ rest)
unfolding flatten
split_unique [] [] tail rest a b p q e = (refl, e)
split_unique [] (f ∷ fs) tail rest a b p q e =
    absurd (partial-frame tail f (flatten fs ++ rest) p b.0 (e ∙ append_assoc f (flatten fs) rest))
split_unique (g ∷ gs) [] tail rest a b p q e =
    absurd
      (partial-frame rest g (flatten gs ++ tail) q a.0 (sym e ∙ append_assoc g (flatten gs) tail))
split_unique (g ∷ gs) (f ∷ fs) tail rest a b p q e =
    let e' : g ++ (flatten gs ++ tail) ≡ f ++ (flatten fs ++ rest) =
      sym (append_assoc g (flatten gs) tail) ∙ (e ∙ append_assoc f (flatten fs) rest) in
    let l = same-length g (flatten gs ++ tail) f (flatten fs ++ rest) a.0 b.0 e' in
    let (same, others) = append-cancel g f (flatten gs ++ tail) (flatten fs ++ rest) l e' in
    let (ps, r) = split_unique gs fs tail rest a.1 b.1 p q others in (cc, r)

-- Packets that begin a stream with one more behind them are fewer than those of the stream.
begin-lt :
    (fs gs : List (List ℕ)) (lost tail xs : List ℕ)
    → All IsFrame fs
    → IsFrame lost
    → All IsFrame gs
    → IsPartial tail
    → flatten fs ++ (lost ++ xs) ≡ flatten gs ++ tail
    → length fs < length gs
unfolding flatten
begin-lt [] [] lost tail xs a l b p e = absurd (partial-frame tail lost xs p l (sym e))
begin-lt [] (g ∷ gs) lost tail xs a l b p e = omega arith
begin-lt (f ∷ fs) [] lost tail xs a l b p e = absurd (
    partial-frame tail f (flatten fs ++ (lost ++ xs)) p a.0
      (sym e ∙ append_assoc f (flatten fs) (lost ++ xs)))
begin-lt (f ∷ fs) (g ∷ gs) lost tail xs a l b p e =
    let e' : f ++ (flatten fs ++ (lost ++ xs)) ≡ g ++ (flatten gs ++ tail) =
      sym (append_assoc f (flatten fs) (lost ++ xs)) ∙ (e ∙ append_assoc g (flatten gs) tail) in
    let n = same-length f (flatten fs ++ (lost ++ xs)) g (flatten gs ++ tail) a.0 b.0 e' in
    omega (
      arith,
      begin-lt fs gs lost tail xs a.1 l b.1 p
          (append-cancel f g (flatten fs ++ (lost ++ xs)) (flatten gs ++ tail) n e').1,
    )

count-queued :
    (sock : ℕ) (ms : List (ℕ × Message)) (fs : List (List ℕ))
    → count_if (PackageList.msg_equal sock) (ms ++ map (λ f. (sock, receiving f)) fs)
      ≡ count_if (PackageList.msg_equal sock) ms + length fs
count-queued sock [] [] = omega arith
count-queued sock [] (f ∷ fs) = ground (arith, count-queued sock [] fs)
count-queued sock (m ∷ ms) fs = ground (arith, count-queued sock ms fs)

module _ {S : Type 0} (k : Kernel S) (sock : ℕ) (stream : S → List ℕ)
    (drain : DrainLaws k sock stream) where
  drained :
      (s : Server S) (h : List ℕ) (r : Option (Loop S))
      → (d : Ended sock stream k s h r) → stream d.after.world ≡ []
  drained s h r d = elim d.no_bytes [
    | inl e ↦ drain.failed_empty d.asked d.from d.after.world d.wanted e.1
    | inr e ↦ drain.end_empty d.asked d.from d.after.world d.wanted e.1
  ]

  -- The loop has read the whole stream and come to its end.
  abbrev pub Drained : Server S → List ℕ → List (List ℕ) → List ℕ → Option (Loop S) → Type 0
  Drained s h gs tail r =
      (d : Ended sock stream k s h r) × (d.fs ≡ gs) × (d.rest ≡ tail) × (stream d.after.world ≡ [])

  pub recv_loop-Drained :
      StreamLaws k sock stream
      → (fuel : ℕ) (s : Server S) (h : List ℕ) (gs : List (List ℕ)) (tail : List ℕ)
      → length (stream s.world) < fuel
      → h ++ stream s.world ≡ flatten gs ++ tail
      → IsPartial h
      → All IsFrame gs
      → IsPartial tail
      → count_if (PackageList.msg_equal sock) s.packages.messages + length gs ≤ 201
      → IsValid s.recv_list
      → HashTable.find sock s.recv_list ≡ some (receiving h)
      → Drained s h gs tail (recv_loop k fuel sock (receiving h) s)
  recv_loop-Drained laws fuel s h gs tail enough e q frames p room valid present =
      let clean = subst Clean (sym e) (Clean-flatten gs tail frames p) in
      elim (recv_loop-Reassembles k sock stream laws fuel s h enough clean q valid present) [
        | inl d ↦
            let all = drained s h _ d in
            let split : flatten d.fs ++ d.rest ≡ flatten gs ++ tail =
              sym d.delivers.split
              ∙ (ap (◌++◌ h) (
                    sym (append-nil d.delivers.read)
                    ∙ (ap (◌++◌ d.delivers.read) (sym all) ∙ sym d.delivers.consumed))
                  ∙ e) in
            let (same, left) =
              split_unique d.fs gs d.rest tail d.delivers.frames frames d.partial p split in
            (d, same, left, all)
        | inr d ↦ absurd (
            omega (
              arith,
              d.crowded,
              ap (count_if (PackageList.msg_equal sock)) d.delivers.queued,
              count-queued sock s.packages.messages d.fs,
              begin-lt d.fs gs d.lost tail (stream d.before.world) d.delivers.frames d.whole frames
                  p
                  (sym (append_assoc (flatten d.fs) d.lost (stream d.before.world))
                    ∙ (ap (λ l. l ++ stream d.before.world) (sym d.delivers.split)
                        ∙ (append_assoc h d.delivers.read (stream d.before.world)
                            ∙ (ap (◌++◌ h) (sym d.delivers.consumed) ∙ e)))),
            ))
      ]

  -- The peer has sent the packets `gs`, whose length fields do not wrap, and a part of another,
  -- `tail`, in whatever pieces the kernel hands them over; the first of these bytes, `h`, are in
  -- the socket's packet already and the others are unread. The receive table is valid, the queue has room for the packets, there is more fuel than unread bytes, and
  -- `recv` and the non-blocking socket are as documented. Then the receive loop ends and has put
  -- exactly these packets at the end of the queue, in their order; the bytes of `tail` are in the
  -- socket's packet and nothing is left unread.
  pub recv_loop-delivers :
      StreamLaws k sock stream
      → (fuel : ℕ) (s : Server S) (h : List ℕ) (gs : List (List ℕ)) (tail : List ℕ)
      → length (stream s.world) < fuel
      → h ++ stream s.world ≡ flatten gs ++ tail
      → IsPartial h
      → All IsFrame gs
      → IsPartial tail
      → count_if (PackageList.msg_equal sock) s.packages.messages + length gs ≤ 201
      → IsValid s.recv_list
      → HashTable.find sock s.recv_list ≡ some (receiving h)
      → (ret : Ret) × (after : Server S) × (recv_loop k fuel sock (receiving h) s
          ≡ some (ended ret after))
        × (after.packages.messages ≡ s.packages.messages ++ map (λ f. (sock, receiving f)) gs)
        × (HashTable.find sock after.recv_list ≡ some (receiving tail))
        × (stream after.world ≡ [])
  recv_loop-delivers laws fuel s h gs tail enough e q frames p room valid present =
      let (d, same, left, all) =
        recv_loop-Drained laws fuel s h gs tail enough e q frames p room valid present in
      (
        d.ret,
        d.after,
        d.result,
        subst
            (λ l.
              d.after.packages.messages ≡ s.packages.messages ++ map (λ f. (sock, receiving f)) l)
            same d.delivers.queued,
        d.kept ∙ ap (λ l. some (receiving l)) left,
        all,
      )
