-- ===== src/Singleton.antt =====
-- macro_define.h: `getInstance` of `SINGTONE_GETINSTANCE`, which takes no lock. An object is the number of
-- its allocation.
use pserver.Prelude.{
  ℕ, ◌+◌, ◌≡◌, refl, ap, ◌∙◌, Bool, true, false, List, [], ◌∷◌, Option, none, some, if◌then◌else◌,
  is_none,
}

-- `_pInstance`, null at first, and the number of the next object.
pub record Static : Type 0 where
  pub instance_ : Option ℕ
  pub next : ℕ

-- Where a thread stands in `getInstance`: before the test, behind a test that saw null, before the return,
-- and behind it with the object that it got.
pub data Phase : Type 0 where
  entering saw_null returning : Phase
  returned : ℕ → Phase

-- what a thread does next
unfoldable pub advance : Phase → Static → Phase × Static
advance entering s = (if is_none s.instance_ then saw_null else returning, s)
advance saw_null s = (returning, record { instance_ = some s.next; next = s.next + 1 })
advance returning s = elim s.instance_ [ none ↦ (returning, s) | some o ↦ (returned o, s) ]
advance (returned o) s = (returned o, s)

-- Two threads, and a schedule that says which of them goes on: the first where it is true.
pub record Callers : Type 0 where
  pub first : Phase
  pub second : Phase
  pub static_ : Static

unfoldable pub turn : Bool → Callers → Callers
unfolding advance
turn true c = let (p, s) = advance c.first c.static_ in record c { first = p; static_ = s }
turn false c = let (p, s) = advance c.second c.static_ in record c { second = p; static_ = s }

unfoldable pub turns : List Bool → Callers → Callers
unfolding turn
turns [] c = c
turns (b ∷ bs) c = turns bs (turn b c)

-- A thread that has no stale test behind it, and no other object than `o`.
abbrev Holds : ℕ → Phase → Type 0
Holds o saw_null = ⊥
Holds o (returned x) = x ≡ o
Holds o _ = Unit {0}

abbrev pub Agree : ℕ → Callers → Type 0
Agree o c = Holds o c.first × Holds o c.second × (c.static_.instance_ ≡ some o)

advance-Holds :
    (o : ℕ) (p : Phase) (s : Static)
    → Holds o p
    → s.instance_ ≡ some o
    → Holds o (advance p s).0 × ((advance p s).1 ≡ s)
unfolding advance
advance-Holds o entering s h e = rw e (tt, refl)
advance-Holds o saw_null s h e = absurd h
advance-Holds o returning s h e = rw e (refl, refl)
advance-Holds o (returned x) s h e = (h, refl)

-- Once there is an object and no thread stands behind a test that saw null, both threads get that object,
-- however they take turns.
pub turns-Agree : (o : ℕ) (bs : List Bool) (c : Callers) → Agree o c → Agree o (turns bs c)
unfolding turns
turns-Agree o [] c a = a
turns-Agree o (true ∷ bs) c (f, g, e) =
    let (f', same) = advance-Holds o c.first c.static_ f e in
    turns-Agree o bs (turn true c) (unfold turn in (f', g, ap (λ s. s.instance_) same ∙ e))
turns-Agree o (false ∷ bs) c (f, g, e) =
    let (g', same) = advance-Holds o c.second c.static_ g e in
    turns-Agree o bs (turn false c) (unfold turn in (f, g', ap (λ s. s.instance_) same ∙ e))
