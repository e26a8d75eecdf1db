-- ===== src/Message/Receive.antt =====
-- net_message.cpp, `Recv` and `RecvDone`: the packet buffer while the bytes `h` of it have arrived.
use pserver.Prelude.{
  ℕ, ◌+◌, ◌-◌, ◌*◌, ◌≤◌, ◌<◌, ◌≡◌, refl, inl, inr, List, [], ◌∷◌, ◌++◌, Option, some, arith, ltb,
  ◌==◌, if◌then◌else◌, lt→ltb, not-ltb, length, length-append, ◌>>=◌,
}
use pserver.Bytes.{peek, peek_u16, poke, resize, le_bytes}
use pserver.Kernel.{Received, got, recv_failed}
use pserver.Message.{Message, get_length, set_length, new}
use pserver.Message.Padding.{
  pad, target, Narrow, receiving, poke-pad, resize-pad, target_cases, target-append, Narrow-prefix,
  target-lt,
}
use pserver.Message.Transfer.{Ret, count, failed, store, recv_head, recv_body, recv, recv_done}

pub new-receiving : new ≡ some (receiving [])
unfolding new set_length poke le_bytes resize
new-receiving = refl

pub get_length-receiving :
    (h : List ℕ)
    → Narrow h
    → (n : ℕ) × (get_length (receiving h) ≡ some n)
      × (4 ≤ n)
      × (n ≤ 0xffff)
      × (4 ≤ length h → n ≡ target h)
unfolding get_length peek_u16 peek
get_length-receiving [] w = (4, refl, omega arith, omega arith, omega arith)
get_length-receiving (a ∷ []) w = (a + 4, ground arith, omega arith, omega arith, omega arith)
get_length-receiving (a ∷ b ∷ []) w =
    (a + 256 * b + 4, ground arith, omega arith, omega arith, omega arith)
get_length-receiving (a ∷ b ∷ c ∷ []) w =
    (a + 256 * b + 4, ground arith, omega arith, omega arith, omega arith)
get_length-receiving (a ∷ b ∷ c ∷ d ∷ rest) w =
    (a + 256 * b + 4, ground arith, omega arith, omega arith, λ _. refl)

-- A packet is done exactly when all its bytes are there.
pub recv_done-receiving :
    (h : List ℕ) → Narrow h → recv_done (receiving h) ≡ some (length h == target h)
unfolding recv_done
recv_done-receiving h w =
    let (n, e, low, high, exact) = get_length-receiving h w in
    rw e (elim (target_cases h) [
      | inl (short, t) ↦ ground arith
      | inr long ↦ rw (exact long) (ground arith)
    ])

recv_store :
    (h bytes : List ℕ)
    → length h + length bytes ≤ target h
    → target h < 65536
    → store (got bytes) (receiving h)
      ≡ some (
        record (receiving h) {
          buffer = pad (target h) (h ++ bytes);
          recv_len = length (h ++ bytes);
        },
        count (length bytes),
      )
unfolding store
recv_store h bytes le small =
    rw (poke-pad (target h) h bytes le) (ground (arith, length-append h bytes))

module _ {S : Type 0} (ask : ℕ → S → Received × S) (s s' : S) where
  -- The rest of `recv_head` once `g` has arrived.
  head_rest : List ℕ → Message → Ret → Option (Message × Ret × S)
  head_rest g m' ret =
      if length g == 4
      then (do
        len ← get_length m'
        if ltb 0xffff len
            then some (m', count 0, s')
            else some (record m' { buffer = resize len m'.buffer }, ret, s'))
      else some (m', ret, s')

  abbrev headed : List ℕ → Message
  headed g = record { read_pos = 4; buffer = pad 4 g; recv_len = length g; send_begin = 0 }

  head_rest-receiving :
      (g : List ℕ) (ret : Ret)
      → Narrow g
      → length g ≤ 4
      → head_rest g (headed g) ret ≡ some (receiving g, ret, s')
  unfolding head_rest get_length peek_u16 peek
  head_rest-receiving [] ret w le = refl
  head_rest-receiving (a ∷ []) ret w le = refl
  head_rest-receiving (a ∷ b ∷ []) ret w le = refl
  head_rest-receiving (a ∷ b ∷ c ∷ []) ret w le = refl
  head_rest-receiving (a ∷ b ∷ c ∷ d ∷ []) ret w le =
      ground (arith, resize-pad (a + 256 * b + 4) (a ∷ b ∷ c ∷ d ∷ []))
  head_rest-receiving (a ∷ b ∷ c ∷ d ∷ e ∷ g) ret w le = absurd (omega arith)

  -- Bytes that the kernel hands over go behind those that are there, and nothing else changes.
  pub recv-receiving :
      (h bytes : List ℕ)
      → Narrow (h ++ bytes)
      → length h < target h
      → ask (target h - length h) s ≡ (got bytes, s')
      → length h + length bytes ≤ target h
      → recv ask (receiving h) s ≡ some (receiving (h ++ bytes), count (length bytes), s')
  unfolding recv recv_head recv_body
  recv-receiving h bytes w lt answer le =
      let narrow = Narrow-prefix h bytes w in
      let stored = recv_store h bytes le (target-lt h narrow) in
      elim (target_cases h) [
        | inl (short, t) ↦
            let answer' : ask (4 - length h) s ≡ (got bytes, s') = rw (← t) answer in
            let sum = length-append h bytes in
            rw (lt→ltb (length h) 4 short, answer', stored, t)
              (unfold head_rest in
                head_rest-receiving (h ++ bytes) (count (length bytes)) w (omega (arith, t)))
        | inr long ↦
            let (n, e, low, high, exact) = get_length-receiving h narrow in
            let answer' : ask (n - length h) s ≡ (got bytes, s') = rw (exact long) answer in
            rw (
              not-ltb (length h) 4 long,
              e,
              not-ltb n (length h) (omega (arith, exact long)),
              answer',
              stored,
              target-append h bytes long,
            )
      ]

  pub recv-receiving_failed :
      (h : List ℕ)
      → Narrow h
      → length h < target h
      → ask (target h - length h) s ≡ (recv_failed, s')
      → recv ask (receiving h) s ≡ some (receiving h, failed, s')
  unfolding recv recv_head recv_body store
  recv-receiving_failed h w lt answer = elim (target_cases h) [
    | inl (short, t) ↦
        let answer' : ask (4 - length h) s ≡ (recv_failed, s') = rw (← t) answer in
        rw (lt→ltb (length h) 4 short, answer') (ground arith)
    | inr long ↦
        let (n, e, low, high, exact) = get_length-receiving h w in
        let answer' : ask (n - length h) s ≡ (recv_failed, s') = rw (exact long) answer in
        rw (not-ltb (length h) 4 long, e, not-ltb n (length h) (omega (arith, exact long)), answer')
  ]
