-- ===== src/Message/Progress.antt =====
-- net_message.cpp, `Recv` and `RecvDone`: what holds of a packet that is being received, whatever the
-- peer sends.
use pserver.Prelude.{
  ℕ, zero, suc, ◌+◌, ◌-◌, ◌*◌, ◌≤◌, ◌<◌, ◌≡◌, refl, sym, ap, subst, ◌∙◌, ◌≢◌, ◌⊎◌, inl, inr, true,
  List, [], ◌∷◌, ◌++◌, Option, some, arith, ltb, ◌==◌, if◌then◌else◌, Bool-cases, ltb→lt,
  Option-cases, length, take, drop, length-append, length-take, length-drop, ◌>>=◌, Returns,
}
use pserver.Bytes.{peek, peek_u16, poke, resize, to_u16, length-resize, head_cases}
use pserver.Kernel.{Received, got, recv_failed}
use pserver.Message.{Message, get_length, new}
use pserver.Message.Padding.{receiving}
use pserver.Message.Receive.{new-receiving}
use pserver.Message.Transfer.{Ret, count, store, recv_head, recv_body, recv, recv_done}

-- The header is not complete, or it is and the buffer has room for one, or the length in it has wrapped
-- and the buffer was cut down below the header.
abbrev pub IsHead : Message → Type 0
IsHead m = (length m.buffer ≡ 4) × (m.recv_len ≤ 3)

abbrev pub IsBody : Message → Type 0
IsBody m = (4 ≤ length m.buffer) × (length m.buffer ≤ 0xffff) × (4 ≤ m.recv_len)

abbrev pub IsCut : Message → Type 0
IsCut m = (length m.buffer < 4) × (m.recv_len ≡ 4) × (get_length m ≢ some 4)

abbrev pub InProgress : Message → Type 0
InProgress m = IsHead m ⊎ (IsBody m ⊎ IsCut m)

-- What `store` does to the buffer and the count.
record Stores (m m' : Message) : Type 0 where
  size : length m'.buffer ≡ length m.buffer
  read : ℕ
  fits :
      (m' ≡ m)
      ⊎ ((m'.recv_len ≡ to_u16 (m.recv_len + read)) × (m.recv_len + read ≤ length m.buffer))

length-poke :
    (bs : List ℕ) (i : ℕ) (src c : List ℕ)
    → poke bs i src ≡ some c
    → (i + length src ≤ length bs) × (length c ≡ length bs)
unfolding poke
length-poke bs i src c e = ground (
  arith,
  length-append (take i bs) (src ++ drop (i + length src) bs),
  length-append src (drop (i + length src) bs),
  length-take i bs,
  length-drop (i + length src) bs,
)

store_lem : (a : Received) (m m' : Message) (ret : Ret) → store a m ≡ some (m', ret) → Stores m m'
unfolding store
store_lem recv_failed m m' ret e = record {
  size = ground arith;
  read = 0;
  fits = inl (ground arith);
}
store_lem (got bytes) m m' ret e = elim (Option-cases (poke m.buffer m.recv_len bytes)) [
  | inl f ↦ absurd (ground arith)
  | inr (c, f) ↦
      let (room, same) = length-poke m.buffer m.recv_len bytes c f in
      record { size = ground arith; read = length bytes; fits = inr (ground arith) }
]

cut_lem :
    (len a b c d : ℕ) (m : Message)
    → m.buffer ≡ resize len (a ∷ b ∷ c ∷ d ∷ [])
    → len ≡ to_u16 (a + 256 * b + 4)
    → len < 4
    → get_length m ≢ some 4
unfolding get_length peek_u16 peek resize
cut_lem zero a b c d m e h lt g = ground arith
cut_lem (suc zero) a b c d m e h lt g = ground arith
cut_lem (suc (suc zero)) a b c d m e h lt g = ground arith
cut_lem (suc (suc (suc zero))) a b c d m e h lt g = ground arith
cut_lem (suc (suc (suc (suc n)))) a b c d m e h lt g = absurd (omega arith)

get_length-head :
    (a b c d : ℕ) (m : Message)
    → m.buffer ≡ a ∷ b ∷ c ∷ d ∷ []
    → get_length m ≡ some (to_u16 (a + 256 * b + 4))
unfolding get_length peek_u16 peek
get_length-head a b c d m e = ground arith

cut_below :
    (m : Message) (len a b c d : ℕ) (rest : List ℕ)
    → m.buffer ≡ a ∷ b ∷ c ∷ d ∷ rest
    → length m.buffer ≡ 4
    → get_length m ≡ some len
    → len < 4
    → get_length (record m { buffer = resize len m.buffer }) ≢ some 4
cut_below m len a b c d (x ∷ rest) e size g lt = absurd (omega (arith, ap length e))
cut_below m len a b c d [] e size g lt =
    cut_lem len a b c d (record m { buffer = resize len m.buffer }) (ap (resize len) e)
      (ground (arith, g, get_length-head a b c d m e)) lt

pub get_length-le : (m : Message) (len : ℕ) → get_length m ≡ some len → len ≤ 0xffff
unfolding get_length
get_length-le m len e = elim (Option-cases (peek_u16 m.buffer 0)) [
  | inl none' ↦ absurd (ground (arith, e))
  | inr (n, f) ↦ ground (arith, e)
]

resized :
    (m : Message) (len : ℕ)
    → length m.buffer ≡ 4
    → m.recv_len ≡ 4
    → get_length m ≡ some len
    → InProgress (record m { buffer = resize len m.buffer })
resized m len e r g =
    let size = length-resize len m.buffer in
    elim (Bool-cases (ltb len 4)) [
      | inr long ↦
          inr (inl (ground (arith, size), ground (arith, size, get_length-le m len g), omega arith))
      | inl short ↦
          let (a, b, c, d, rest, f) = head_cases m.buffer (omega arith) in
          inr
            (inr (ground (arith, size), r, cut_below m len a b c d rest f e g (ltb→lt len 4 short)))
    ]

module _ {S : Type 0} (ask : ℕ → S → Received × S) (m m' : Message) (ret : Ret) (s s' : S) where
  -- the rest of `recv_head` once the bytes are stored
  abbrev rest_of : Message → Ret → S → Option (Message × Ret × S)
  rest_of m1 ret1 s1 =
      if m1.recv_len == 4
      then (do
        len ← get_length m1
        if ltb 0xffff len
            then some (m1, count 0, s1)
            else some (record m1 { buffer = resize len m1.buffer }, ret1, s1))
      else some (m1, ret1, s1)

  after_store :
      (m1 : Message) (ret1 : Ret) (s1 : S)
      → length m1.buffer ≡ 4
      → m1.recv_len ≤ 4
      → rest_of m1 ret1 s1 ≡ some (m', ret, s')
      → InProgress m'
  after_store m1 ret1 s1 size few e = elim (Bool-cases (m1.recv_len == 4)) [
    | inr short ↦ subst InProgress {x = m1} (ground (arith, e)) (inl (size, ground arith))
    | inl full ↦ elim (Option-cases (get_length m1)) [
      | inl none' ↦ absurd (ground (arith, e))
      | inr (len, g) ↦ elim (Bool-cases (ltb 0xffff len)) [
        | inl long ↦
            subst InProgress {x = m1} (ground (arith, e))
              (inr (inl (omega arith, omega arith, ground arith)))
        | inr fits ↦
            subst InProgress {x = record m1 { buffer = resize len m1.buffer }} (ground (arith, e))
              (resized m1 len size (ground arith) g)
      ]
    ]
  ]

  recv_head-InProgress : IsHead m → recv_head ask m s ≡ some (m', ret, s') → InProgress m'
  unfolding recv_head
  recv_head-InProgress h e = elim (Option-cases (store (ask (4 - m.recv_len) s).0 m)) [
    | inl none' ↦ absurd (ground (arith, e))
    | inr ((m1, ret1), f) ↦
        let st = store_lem (ask (4 - m.recv_len) s).0 m m1 ret1 f in
        after_store m1 ret1 (ask (4 - m.recv_len) s).1 (st.size ∙ h.0) (ground (arith, st.fits))
          (ground (arith, f))
  ]

  recv_body-InProgress :
      IsBody m ⊎ IsCut m → recv_body ask m s ≡ some (m', ret, s') → IsBody m' ⊎ IsCut m'
  unfolding recv_body
  recv_body-InProgress h e = elim (Option-cases (get_length m)) [
    | inl none' ↦ absurd (ground (arith, e))
    | inr (len, g) ↦ elim (Bool-cases (ltb len m.recv_len)) [
      | inl wrong ↦ subst (λ x. IsBody x ⊎ IsCut x) {x = m} (ground (arith, e)) h
      | inr right ↦ elim (Option-cases (store (ask (len - m.recv_len) s).0 m)) [
        | inl none' ↦ absurd (ground (arith, e))
        | inr ((m1, ret1), f) ↦
            let st = store_lem (ask (len - m.recv_len) s).0 m m1 ret1 f in
            let same : m1 ≡ m' = ground (arith, e) in
            elim st.fits [
              | inl kept ↦ subst (λ x. IsBody x ⊎ IsCut x) (sym kept ∙ same) h
              | inr (more, room) ↦ elim h [
                | inl body ↦
                    subst (λ x. IsBody x ⊎ IsCut x) same
                      (inl (omega (arith, st.size), omega (arith, st.size), omega (arith, st.size)))
                | inr cut ↦ absurd (omega arith)
              ]
            ]
      ]
    ]
  ]

  -- `Recv` keeps it, whatever the call brings.
  pub recv-InProgress : InProgress m → recv ask m s ≡ some (m', ret, s') → InProgress m'
  unfolding recv
  recv-InProgress (inl h) e = recv_head-InProgress h (ground (arith, e))
  recv-InProgress (inr (inl h)) e = inr (recv_body-InProgress (inl h) (ground (arith, e)))
  recv-InProgress (inr (inr h)) e = inr (recv_body-InProgress (inr h) (ground (arith, e)))

pub new-InProgress : Returns new InProgress
new-InProgress = (receiving [], new-receiving, inl (refl, omega arith))

-- A packet that `RecvDone` accepts has a whole header.
pub recv_done-InProgress :
    (m : Message) → InProgress m → recv_done m ≡ some true → 4 ≤ length m.buffer
unfolding recv_done
recv_done-InProgress m (inl h) e = omega arith
recv_done-InProgress m (inr (inl h)) e = omega arith
recv_done-InProgress m (inr (inr (short, four, wrong))) e = elim (Option-cases (get_length m)) [
  | inl none' ↦ absurd (ground (arith, e))
  | inr (len, g) ↦ absurd (wrong (ground (arith, e)))
]
