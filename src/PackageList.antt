-- ===== src/PackageList.antt =====
-- net_packlist.h and net_packlist.cpp: the queue from the network thread to the handler thread. Each
-- operation holds the mutex, so it is one step. A deleted packet is one that is no longer anywhere.
pub mod Laws
use pserver.Prelude.{
  ℕ, zero, suc, ◌+◌, ◌-◌, ◌*◌, ◌/◌, ◌%◌, ◌^◌, ◌≤◌, ◌<◌, ◌≡◌, refl, sym, ap, ◌∙◌, ◌≢◌, ◌⊎◌, inl, inr,
  Bool, true, false, not, ◌&&◌, ◌||◌, List, [], ◌∷◌, ◌++◌, map, append_assoc, append-nil, Option,
  none, some, arith, leb, ltb, ◌==◌, ==_iff, if◌then◌else◌, Bool-cases, Option-cases, length,
  get_or, set, count_if, take, drop, replicate, All, length-append, length-set, length-take,
  length-drop, length-replicate, ◌>>=◌, ◌>>◌, Returns,
}

-- `MsgNode` is a socket with its packet; `permits` is the count of the semaphore.
pub record PackageList {ℓ} (M : Type ℓ) : Type ℓ where
  pub messages : List (ℕ × M)
  pub permits : ℕ

abbrev pub max_queued : ℕ
max_queued = 200

module _ {ℓ} {M : Type ℓ} where
  unfoldable pub new : PackageList M
  new = record { messages = []; permits = 0 }

  abbrev pub msg_equal : ℕ → ℕ × M → Bool
  msg_equal sock node = node.0 == sock

  unfoldable pub pop_front : List (ℕ × M) → List (ℕ × M) × Option (ℕ × M)
  pop_front [] = ([], none)
  pop_front (node ∷ rest) = (rest, some node)

  -- `GetMsg`: `none` is the null pointer
  unfoldable pub get_msg : PackageList M → PackageList M × Option (ℕ × M)
  unfolding pop_front
  get_msg l =
      if ltb 0 l.permits
      then (
        record { messages = (pop_front l.messages).0; permits = l.permits - 1 },
        (pop_front l.messages).1,
      )
      else (l, none)

  -- `AddMsg`: a refused packet is deleted
  unfoldable pub add_msg : M → ℕ → PackageList M → PackageList M × Bool
  add_msg msg sock l =
      if ltb max_queued (count_if (msg_equal sock) l.messages)
      then (l, false)
      else (record { messages = l.messages ++ (sock, msg) ∷ []; permits = l.permits + 1 }, true)

  unfoldable pub remove_sock : ℕ → List (ℕ × M) → List (ℕ × M)
  remove_sock sock [] = []
  remove_sock sock (node ∷ rest) =
      if msg_equal sock node then remove_sock sock rest else node ∷ remove_sock sock rest

  -- `DelMsg` leaves the semaphore as it is
  unfoldable pub del_msg : ℕ → PackageList M → PackageList M
  unfolding remove_sock
  del_msg sock l = record l { messages = remove_sock sock l.messages }
