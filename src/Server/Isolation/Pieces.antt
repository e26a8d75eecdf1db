-- ===== src/Server/Isolation/Pieces.antt =====
-- net_server.cpp: a part of an event leaves the packets of every other socket alone.
use pserver.Prelude.{ℕ, refl, ◌∙◌, ◌≢◌, ==_ne}
use pserver.HashTable.Laws.{find-erase}
use pserver.Kernel.{Kernel}
use pserver.PackageList.Laws.{of_sock-del_msg}
use pserver.Server.{Server}
use pserver.Server.Isolation.{Same, Same-forget, Same-insert, Same-held, Same-finish}
use pserver.Server.Isolation.Polling.{accept_one-Same, on_send-Same}
use pserver.Server.Parts.{
  Part, socket_of, accepts, makes_packet, receives, finishes, sends, forgets, leaves_epoll,
  calls_back, deletes_packages, shuts, drops_unsent,
}
use pserver.Server.Sound.{IsSound}

module _ {S : Type 0} (k : Kernel S) (j : ℕ) where
  pub Part-Same :
      (s s' : Server S) (change : Part k s s') → j ≢ socket_of k s change → IsSound s → Same j s s'
  unfolding socket_of
  Part-Same s _ (accepts sock) ne v = accept_one-Same k j sock ne sock s
  Part-Same s _ (makes_packet sock fresh gone made) ne v = Same-insert j sock ne s fresh v
  Part-Same s _ (receives sock msg m ret w here r) ne v = Same-held j sock ne k s m w v (msg, here)
  Part-Same s _ (finishes sock msg m s' taken here whole f) ne v =
      Same-finish j sock ne msg m s s' taken v f
  Part-Same s _ (sends sock s' e) ne v = on_send-Same k j sock ne s s' v e
  Part-Same s _ (forgets sock) ne v = Same-forget j sock ne s v
  Part-Same s _ (leaves_epoll sock) ne v = (refl, refl, refl)
  Part-Same s _ (calls_back sock fun on) ne v = (refl, refl, refl)
  Part-Same s _ (deletes_packages sock) ne v =
      (refl, refl, of_sock-del_msg sock j s.packages ∙ rw (==_ne sock j ne))
  Part-Same s _ (shuts sock) ne v = (refl, refl, refl)
  Part-Same s _ (drops_unsent sock within) ne v =
      (refl, find-erase sock s.send_list v.sends j ∙ rw (==_ne sock j ne), refl)
