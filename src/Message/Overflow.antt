-- ===== src/Message/Overflow.antt =====
-- net_message.cpp, `Recv`: a header whose length wraps.
use pserver.Prelude.{ℕ, ◌≡◌, refl, List, [], ◌∷◌, none, arith, length, Returns}
use pserver.Bytes.{peek, peek_u16, poke, resize}
use pserver.Kernel.{Received, got}
use pserver.Message.{get_length}
use pserver.Message.Transfer.{count, store, recv_head, recv_body, recv}
use pserver.Message.Padding.{receiving}

-- A peer sends a header with the length field 0xfffd, and any byte behind it. The first `Recv` takes
-- the header and cuts the buffer down to one byte; the second asks for 253 bytes behind the header and
-- writes them past the end of the buffer.
pub recv_overflow :
    {S : Type 0} (ask : ℕ → S → Received × S) (s s1 s2 : S) (c d b : ℕ) (bytes : List ℕ)
    → ask 4 s ≡ (got (253 ∷ 255 ∷ c ∷ d ∷ []), s1)
    → ask 253 s1 ≡ (got (b ∷ bytes), s2)
    → Returns
        (recv ask (receiving []) s)
        λ r. (r.1 ≡ count 4) × (length r.0.buffer ≡ 1) × (r.2 ≡ s1) × (recv ask r.0 s1 ≡ none)
unfolding recv recv_head recv_body store get_length peek_u16 peek poke resize
recv_overflow ask s s1 s2 c d b bytes e f = (
  (record { read_pos = 4; buffer = 253 ∷ []; recv_len = 4; send_begin = 0 }, count 4, s1),
  rw e refl,
  (refl, refl, refl, rw f (ground arith)),
)
