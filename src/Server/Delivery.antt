-- ===== src/Server/Delivery.antt =====
-- net_server.cpp, `OnRecv`: all rounds of the receive loop.
use pserver.Prelude.{
  ℕ, zero, suc, ◌+◌, ◌-◌, ◌≤◌, ◌<◌, ◌≡◌, refl, sym, ap, subst, ◌∙◌, inl, inr, true, false, List, [],
  ◌∷◌, ◌++◌, append_assoc, some, arith, ltb, ◌==◌, Bool-cases, ltb→lt, length, count_if,
  length-append,
}
use pserver.HashTable
use pserver.HashTable.Laws.{IsValid, erase-IsValid}
use pserver.Kernel.{Kernel, StreamLaws, Received, got, recv_failed}
use pserver.Message.Transfer.{count, failed}
use pserver.Message.Padding.{
  Narrow, Narrow-prefix, target, receiving, four-le-target, length-le-target,
}
use pserver.PackageList
use pserver.Server.{Server}
use pserver.Server.Loop.{forget, recv_loop}
use pserver.Server.Rounds.{
  hold, queue, round_failed, round_end, round_more, round_queued, round_refused,
}
use pserver.Server.Reassembly.{
  IsFrame, Clean, Clean-Narrow, Clean-tail, IsPartial, Ended, Refused, Reassembles, Keeps,
  hold-Keeps, forget-absent, forget-others, queue-Keeps, queue-packages,
}
use pserver.Server.Joining.{Delivers-more, Delivers-queued, Delivers-none, Ready, transfer, Loops}

module _ {S : Type 0} (sock : ℕ) (stream : S → List ℕ) where
  module _ (k : Kernel S) (laws : StreamLaws k sock stream) where
    module _ (fuel : ℕ) (s : Server S) (h : List ℕ) (r : Ready sock stream s h) (w' : S) where
      ends_failed :
          k.recv sock (target h - length h) s.world ≡ (recv_failed, w')
          → Ended sock stream k s h (recv_loop k (suc fuel) sock (receiving h) s)
      ends_failed e =
          let same = laws.recv_none _ s.world w' e in
          let kept = hold-Keeps sock stream s r.valid h w' (receiving h) r.present in
          record {
            fs = [];
            rest = h;
            after = hold sock h w' s;
            ret = failed;
            result = round_failed k sock fuel h s w' r.partial.0 r.partial.1 e;
            asked = target h - length h;
            from = s.world;
            wanted = omega (arith, r.partial.1);
            no_bytes = inl (refl, e);
            partial = r.partial;
            kept = kept.here;
            delivers = Delivers-none sock stream (sym same) refl kept.others refl kept.valid;
          }

      ends_end :
          k.recv sock (target h - length h) s.world ≡ (got [], w')
          → Ended sock stream k s h (recv_loop k (suc fuel) sock (receiving h) s)
      ends_end e =
          let kept = hold-Keeps sock stream s r.valid h w' (receiving h) r.present in
          record {
            fs = [];
            rest = h;
            after = hold sock h w' s;
            ret = count 0;
            result = round_end k sock fuel h s w' r.partial.0 r.partial.1 e;
            asked = target h - length h;
            from = s.world;
            wanted = omega (arith, r.partial.1);
            no_bytes = inr (refl, e);
            partial = r.partial;
            kept = kept.here;
            delivers =
                Delivers-none sock stream (laws.recv_got _ s.world w' [] e).0 refl kept.others refl
                  kept.valid;
          }

      module _ (b : ℕ) (bytes : List ℕ)
          (e : k.recv sock (target h - length h) s.world ≡ (got (b ∷ bytes), w')) where
        g : List ℕ
        g = h ++ b ∷ bytes

        law :
            (stream s.world ≡ (b ∷ bytes) ++ stream w') × (length (b ∷ bytes) ≤ target h - length h)
        law = laws.recv_got _ s.world w' (b ∷ bytes) e

        whole : h ++ stream s.world ≡ g ++ stream w'
        unfolding g
        whole = ap (◌++◌ h) law.0 ∙ sym (append_assoc h (b ∷ bytes) (stream w'))

        g-Clean : Clean (g ++ stream w')
        g-Clean = subst Clean whole r.clean

        g-Narrow : Narrow g
        g-Narrow = Narrow-prefix g (stream w') (Clean-Narrow _ g-Clean)

        shorter : length (stream w') < length (stream s.world)
        shorter = omega (arith, ap length law.0, length-append (b ∷ bytes) (stream w'))

        fits : length h + length (b ∷ bytes) ≤ target h
        fits = omega (arith, law.1, r.partial.1)

        held : Keeps sock stream s (hold sock g w' s) (receiving g)
        held = hold-Keeps sock stream s r.valid g w' (receiving h) r.present

        more :
            Loops sock stream k fuel
            → length (stream s.world) < suc fuel
            → length g < target g
            → Reassembles sock stream k s h (recv_loop k (suc fuel) sock (receiving h) s)
        unfolding g
        more ih enough lt =
            transfer sock stream k (λ fs. fs)
              (λ s' rest fs. Delivers-more sock stream (b ∷ bytes) law.0 refl held)
              (round_more k sock fuel h s w' b bytes g-Narrow r.partial.1 e fits lt)
              (ih (hold sock g w' s) g (omega (arith, shorter)) (record {
                clean = g-Clean;
                partial = (g-Narrow, lt);
                valid = held.valid;
                present = held.here;
              }))

        module _ (done : length g ≡ target g) where
          frame : IsFrame g
          frame = record {
            header = omega (arith, four-le-target g);
            size = done;
            narrow = g-Narrow;
          }

          queued :
              Loops sock stream k fuel
              → length (stream s.world) < suc fuel
              → ltb 200 (count_if (PackageList.msg_equal sock) s.packages.messages) ≡ false
              → Reassembles sock stream k s h (recv_loop k (suc fuel) sock (receiving h) s)
          unfolding g
          queued ih enough room =
              let t = queue sock (receiving g) (hold sock g w' s) in
              let kept = queue-Keeps sock stream (hold sock g w' s) held.valid (receiving g) in
              let packages =
                queue-packages sock stream (hold sock g w' s) held.valid (receiving g) room in
              transfer sock stream k (λ fs. g ∷ fs)
                (λ s' rest fs d. Delivers-more sock stream (b ∷ bytes) law.0 refl held (
                  Delivers-queued sock stream g frame (ap stream packages.2) packages.0 packages.1
                    kept d))
                (round_queued k sock fuel h s w' b bytes g-Narrow r.partial.1 e fits done room)
                (ih t [] (omega (arith, shorter, ap (λ w. length (stream w)) packages.2)) (record {
                  clean =
                      subst (λ w. Clean (stream w)) (sym packages.2)
                        (Clean-tail g (stream w') frame g-Clean);
                  partial = (tt, omega arith);
                  valid = kept.valid;
                  present = kept.here;
                }))

          refused :
              ltb 200 (count_if (PackageList.msg_equal sock) s.packages.messages) ≡ true
              → Refused sock stream k s h (recv_loop k (suc fuel) sock (receiving h) s)
          unfolding g
          refused full =
              let before = forget sock (hold sock g w' s) in
              record {
                fs = [];
                lost = g;
                before = before;
                result =
                    round_refused k sock fuel h s w' b bytes g-Narrow r.partial.1 e fits done full;
                crowded = ltb→lt _ _ full;
                whole = frame;
                gone = forget-absent sock stream (hold sock g w' s) held.valid;
                delivers = Delivers-more sock stream (b ∷ bytes) law.0 refl held (
                    Delivers-none sock stream refl refl
                      (forget-others sock stream (hold sock g w' s) held.valid) refl
                      (erase-IsValid sock _ held.valid));
              }

    round :
        (fuel : ℕ)
        → Loops sock stream k fuel
        → (s : Server S) (h : List ℕ) → length (stream s.world) < suc fuel
        → (r : Ready sock stream s h) → (answer : Received) (w' : S)
        → k.recv sock (target h - length h) s.world ≡ (answer, w')
        → Reassembles sock stream k s h (recv_loop k (suc fuel) sock (receiving h) s)
    round fuel ih s h enough r recv_failed w' e = inl (ends_failed fuel s h r w' e)
    round fuel ih s h enough r (got []) w' e = inl (ends_end fuel s h r w' e)
    round fuel ih s h enough r (got (b ∷ bytes)) w' e =
        let le = length-le-target h (b ∷ bytes) (fits fuel s h r w' b bytes e) in
        elim (Bool-cases (length (h ++ b ∷ bytes) == target (h ++ b ∷ bytes))) [
          | inr open_ ↦ more fuel s h r w' b bytes e ih enough (unfold g in ground arith)
          | inl full ↦
              let done : length (g fuel s h r w' b bytes e) ≡ target (g fuel s h r w' b bytes e) =
                unfold g in ground arith in
              elim (Bool-cases
                (ltb 200 (count_if (PackageList.msg_equal sock) s.packages.messages))) [
                  | inr room ↦ queued fuel s h r w' b bytes e done ih enough room
                  | inl crowded ↦ inr (refused fuel s h r w' b bytes e done crowded)
                ]
        ]

    loop : (fuel : ℕ) → Loops sock stream k fuel
    loop zero s h enough r = absurd (omega arith)
    loop (suc fuel) s h enough r =
        round fuel (loop fuel) s h enough r (k.recv sock (target h - length h) s.world).0
          (k.recv sock (target h - length h) s.world).1 refl

-- The receive loop of `OnRecv`, with the bytes `h` of a packet there in a valid receive table and
-- more fuel than unread bytes, under the documented behaviour of `recv`. If no length field at the
-- end of a packet is one that wraps, the loop does not run out of fuel. Either it ends where no
-- byte comes, has queued exactly the packets that the bytes read make up, in their order and
-- however the bytes were cut into calls, and keeps the bytes of the unfinished one; or the queue
-- had more than 200 packets of the socket, and the packet that is then complete is dropped and
-- `CloseConnect` called. The entries of other sockets and the packets that wait to be sent are
-- untouched up to there.
pub recv_loop-Reassembles :
    {S : Type 0} (k : Kernel S) (sock : ℕ) (stream : S → List ℕ)
    → StreamLaws k sock stream
    → (fuel : ℕ) (s : Server S) (h : List ℕ) → length (stream s.world) < fuel
    → Clean (h ++ stream s.world)
    → IsPartial h
    → IsValid s.recv_list
    → HashTable.find sock s.recv_list ≡ some (receiving h)
    → Reassembles sock stream k s h (recv_loop k fuel sock (receiving h) s)
recv_loop-Reassembles k sock stream laws fuel s h enough clean partial valid present =
    loop sock stream k laws fuel s h enough
      (record { clean = clean; partial = partial; valid = valid; present = present })
