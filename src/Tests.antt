-- ===== src/Tests.antt =====
-- A small world for the tests: one peer whose bytes come in calls of at most three.
pub mod Listening
pub mod Network
pub mod Handlers
pub mod Services
pub mod Scripts
pub mod Sending
pub mod Safety
pub mod Ending
pub mod Answering
pub mod Serving
pub mod Many
pub mod Isolation
pub mod Tables
use pserver.Prelude.{
  ℕ, zero, suc, ◌+◌, ◌-◌, ◌*◌, ◌/◌, ◌%◌, ◌^◌, ◌≤◌, ◌<◌, ◌≡◌, refl, sym, ap, subst, ◌∙◌, ◌≢◌, ◌⊎◌,
  inl, inr, Bool, true, false, not, ◌&&◌, ◌||◌, List, [], ◌∷◌, ◌++◌, map, append_assoc, append-nil,
  Option, none, some, arith, leb, ltb, ◌==◌, ==_iff, if◌then◌else◌, Bool-cases, lt→ltb, not-ltb,
  ==_refl, ==_ne, Option-cases, length, get_elem?, get_or, set, count_if, take, drop, replicate,
  All, get_elem?-none, get_or-set_ne, take-append-drop, min, length-append, length-set, length-take,
  length-drop, length-replicate, ◌>>=◌, ◌>>◌, Returns,
}
use pserver.Kernel.{
  Kernel, StreamLaws, DrainLaws, Received, got, recv_failed, Sent, sent, send_failed,
}

pub record World : Type 0 where
  pub input : List ℕ
  pub output : List ℕ
  pub error : ℕ

pub pipe_recv : ℕ → List ℕ → World → Received × World
pipe_recv count [] w = (recv_failed, record w { error = 11 })
pipe_recv count (b ∷ bs) w =
    (got (take (min 3 count) (b ∷ bs)), record w { input = drop (min 3 count) (b ∷ bs) })

unfoldable pub pipe : Kernel World
unfolding pipe_recv
pipe = record {
  recv = λ sock count w. pipe_recv count w.input w;
  send = λ sock bytes w. (sent (length bytes), record w { output = w.output ++ bytes });
  errno = λ w. w.error;
  epoll_ctl = λ op sock events w. (true, w);
  epoll_wait = λ w. ([], w);
  accept = λ sock w. (0, w);
  set_sock = λ sock w. w;
  close = λ sock w. w;
  time = λ w. 7;
}

pipe_got :
    (count : ℕ) (input : List ℕ) (s s' : World) (bytes : List ℕ)
    → s.input ≡ input
    → pipe_recv count input s ≡ (got bytes, s')
    → (s.input ≡ bytes ++ s'.input) × (length bytes ≤ count)
unfolding pipe_recv
pipe_got count [] s s' bytes e h = cc
pipe_got count (b ∷ bs) s s' bytes e h =
    ground (arith, take-append-drop (min 3 count) (b ∷ bs), length-take (min 3 count) (b ∷ bs))

pipe_none :
    (count : ℕ) (input : List ℕ) (s s' : World)
    → pipe_recv count input s ≡ (recv_failed, s')
    → s'.input ≡ s.input
unfolding pipe_recv
pipe_none count [] s s' h = ground arith
pipe_none count (b ∷ bs) s s' h = cc

pub pipe-StreamLaws : (sock : ℕ) → StreamLaws pipe sock (λ w. w.input)
unfolding pipe
pipe-StreamLaws sock = record {
  recv_got = λ count s s' bytes e. pipe_got count s.input s s' bytes refl e;
  recv_none = λ count s s' e. pipe_none count s.input s s' e;
}

pipe_drained :
    (count : ℕ) (input : List ℕ) (s s' : World)
    → s.input ≡ input
    → 0 < count
    → (pipe_recv count input s ≡ (recv_failed, s')) ⊎ (pipe_recv count input s ≡ (got [], s'))
    → s'.input ≡ []
unfolding pipe_recv
pipe_drained count [] s s' e h (inl r) = cc
pipe_drained count [] s s' e h (inr r) = cc
pipe_drained zero (b ∷ bs) s s' e h r = absurd (omega arith)
pipe_drained (suc n) (b ∷ bs) s s' e h (inl r) = cc
pipe_drained (suc n) (b ∷ bs) s s' e h (inr r) = ground (
  arith,
  length-take (min 3 (suc n)) (b ∷ bs),
  ap length {x = take (min 3 (suc n)) (b ∷ bs)} {y = []},
)

pub pipe-DrainLaws : (sock : ℕ) → DrainLaws pipe sock (λ w. w.input)
unfolding pipe
pipe-DrainLaws sock = record {
  failed_empty = λ count s s' h e. pipe_drained count s.input s s' refl h (inl e);
  end_empty = λ count s s' h e. pipe_drained count s.input s s' refl h (inr e);
}
