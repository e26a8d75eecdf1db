-- ===== src/Server/Cutting.antt =====
-- net_server.cpp, `OnRecv`: a stream of packets that is cut anywhere.
use pserver.Prelude.{
  ℕ, ◌*◌, ◌≤◌, ◌<◌, ◌≡◌, refl, sym, ap, subst, ◌∙◌, inl, inr, List, [], ◌∷◌, ◌++◌, append_assoc,
  arith, ltb, Bool-cases, length, length-append, All,
}
use mathlib.Core.List.{flatten}
use pserver.Message.Padding.{target-append, target_cases, Narrow-prefix}
use pserver.Server.Reassembly.{IsFrame, IsPartial}
use pserver.Server.Framing.{partial-frame}

-- Of two lists that begin a third, the shorter begins the longer.
begins :
    (f g xs ys : List ℕ)
    → f ++ xs ≡ g ++ ys
    → length f ≤ length g
    → (more : List ℕ) × (g ≡ f ++ more) × (xs ≡ more ++ ys)
begins [] g xs ys e le = (g, refl, e)
begins (x ∷ f) [] xs ys e le = absurd (omega arith)
begins (x ∷ f) (y ∷ g) xs ys e le =
    let (more, a, b) = begins f g xs ys (cc) (omega arith) in (more, cc, b)

-- What is less than a packet and begins one, or the first part of one, is the first part of one.
IsPartial-prefix : (f more : List ℕ) → IsPartial (f ++ more) → IsPartial f
IsPartial-prefix f more p = (
  Narrow-prefix f more p.0,
  elim (target_cases f) [
    | inl (short, t) ↦ omega arith
    | inr long ↦ omega (arith, p.1, target-append f more long, length-append f more)
  ],
)

IsFrame-prefix :
    (f more : List ℕ) → IsFrame (f ++ more) → length f < length (f ++ more) → IsPartial f
IsFrame-prefix f more v lt = (
  Narrow-prefix f more v.narrow,
  elim (target_cases f) [
    | inl (short, t) ↦ omega arith
    | inr long ↦ omega (arith, v.size, target-append f more long, length-append f more)
  ],
)

-- What the bytes up to the cut are, and what with the rest of them the others are.
pub record Cut (gs : List (List ℕ)) (tail xs ys : List ℕ) : Type 0 where
  pub front : List (List ℕ)
  pub back : List (List ℕ)
  pub rest : List ℕ
  pub before : xs ≡ flatten front ++ rest
  pub after : rest ++ ys ≡ flatten back ++ tail
  pub partial : IsPartial rest
  pub same : gs ≡ front ++ back

pub cut :
    (gs : List (List ℕ)) (tail xs ys : List ℕ)
    → All IsFrame gs
    → IsPartial tail
    → xs ++ ys ≡ flatten gs ++ tail
    → Cut gs tail xs ys
unfolding flatten
cut [] tail xs ys all p e = record {
  front = [];
  back = [];
  rest = xs;
  before = refl;
  after = e;
  partial = IsPartial-prefix xs ys (subst IsPartial (sym e) p);
  same = refl;
}
cut (g ∷ gs) tail xs ys all p e =
    let e' : xs ++ ys ≡ g ++ (flatten gs ++ tail) = e ∙ append_assoc g (flatten gs) tail in
    elim (Bool-cases (ltb (length xs) (length g))) [
      | inl short ↦
          let (more, f, h) = begins xs g ys (flatten gs ++ tail) e' (ground arith) in
          record {
            front = [];
            back = g ∷ gs;
            rest = xs;
            before = refl;
            after = e;
            partial = IsFrame-prefix xs more (subst IsFrame f all.0) (ground (arith, ap length f));
            same = refl;
          }
      | inr long ↦
          let (more, f, h) = begins g xs (flatten gs ++ tail) ys (sym e') (ground arith) in
          let c = cut gs tail more ys all.1 p (sym h) in
          record {
            front = g ∷ c.front;
            back = c.back;
            rest = c.rest;
            before = f ∙ (ap (◌++◌ g) c.before ∙ sym (append_assoc g (flatten c.front) c.rest));
            after = c.after;
            partial = c.partial;
            same = ap (◌∷◌ g) c.same;
          }
    ]

-- With less than a packet there before, packets of so few bytes are few.
length-front-le :
    (fs : List (List ℕ)) (rest : List ℕ)
    → All IsFrame fs
    → 4 * length fs ≤ length (flatten fs ++ rest)
unfolding flatten
length-front-le [] rest all = omega arith
length-front-le (f ∷ fs) rest all = omega (
  arith,
  all.0.header,
  length-front-le fs rest all.1,
  ap length (append_assoc f (flatten fs) rest),
  length-append f (flatten fs ++ rest),
)

pub frames-few :
    (fs : List (List ℕ)) (h bytes rest : List ℕ)
    → IsPartial h
    → All IsFrame fs
    → h ++ bytes ≡ flatten fs ++ rest
    → length bytes ≤ 800
    → length fs ≤ 201
unfolding flatten
frames-few [] h bytes rest p all e few = omega arith
frames-few (f ∷ fs) h bytes rest p all e few =
    let e' : h ++ bytes ≡ f ++ (flatten fs ++ rest) = e ∙ append_assoc f (flatten fs) rest in
    elim (Bool-cases (ltb (length h) (length f))) [
      | inl short ↦
          let (more, g, b) = begins h f bytes (flatten fs ++ rest) e' (ground arith) in
          omega (
            arith,
            length-front-le fs rest all.1,
            ap length b,
            length-append more (flatten fs ++ rest),
          )
      | inr long ↦
          let (more, g, b) = begins f h (flatten fs ++ rest) bytes (sym e') (ground arith) in
          absurd (partial-frame h f more p all.0 g)
    ]
