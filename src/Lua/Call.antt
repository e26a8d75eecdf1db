-- ===== src/Lua/Call.antt =====
-- plua.cpp, `Call`: a function of a script, its arguments and its results by letters of a format.
use pserver.Prelude.{
  ℕ, ◌+◌, ◌≡◌, refl, Bool, true, false, ◌||◌, List, [], ◌∷◌, ◌++◌, Option, none, some, arith, ◌==◌,
  if◌then◌else◌, length, ◌>>=◌,
}
use pserver.Lua.{Text}

-- What goes through the `va_list` to the script: numbers, strings, pointers to objects.
pub data Arg : Type 0 where
  number : ℕ → Arg
  string : Text → Arg
  pointer : ℕ → Arg

-- What a letter of the format stands for: `d` and `i`, `s`, `u` and `t`, `>`, and any other.
pub data Letter : Type 0 where
  numeric textual object separator invalid : Letter

unfoldable pub letter : ℕ → Letter
letter c =
    if c == b'd' || c == b'i'
    then numeric
    else if c == b's'
    then textual
    else if c == b'u' || c == b't'
    then object
    else if c == b'>'
    then separator
    else invalid

-- What the first loop leaves: the values it pushed, `narg`, what `fmt` points to, the arguments behind
-- those it took, and how many errors it logged.
pub record Pushed : Type 0 where
  pub pushed : List Arg
  pub narg : ℕ
  pub rest : List ℕ
  pub left : List Arg
  pub errors : ℕ

-- one pass of the loop that pushed nothing but perhaps an error, in front of the others
abbrev pass : List Arg → ℕ → Pushed → Pushed
pass new errors p = record p {
  pushed = new ++ p.pushed;
  narg = p.narg + 1;
  errors = errors + p.errors;
}

-- `va_arg` of the wrong type, or past the last argument, is undefined
abbrev pub is_for : Letter → Arg → Bool
is_for numeric (number n) = true
is_for textual (string t) = true
is_for object (pointer p) = true
is_for _ _ = false

-- `knows` tells whether `PushPointer` finds the type of an object. `>` ends the loop, and before that
-- falls through to the branch that logs an invalid argument, and is counted.
module _ (knows : ℕ → Bool) where
  unfoldable pub push_args : List ℕ → List Arg → Option Pushed
  push_args [] args = some (record { pushed = []; narg = 0; rest = []; left = args; errors = 0 })
  push_args (c ∷ fmt) [] =
      let more = push_args fmt [] in
      elim (letter c) [
        | separator ↦ some (record { pushed = []; narg = 1; rest = fmt; left = []; errors = 1 })
        | invalid ↦ do p ← more; some (pass [] 1 p)
        | _ ↦ none
      ]
  push_args (c ∷ fmt) (a ∷ args) =
      let next = push_args fmt args in
      let more = push_args fmt (a ∷ args) in
      elim (letter c) [
        | separator ↦
            some (record { pushed = []; narg = 1; rest = fmt; left = a ∷ args; errors = 1 })
        | invalid ↦ do p ← more; some (pass [] 1 p)
        | object ↦
            if is_for object a
            then (do p ← next; some (if knows c then pass (a ∷ []) 0 p else pass [] 1 p))
            else none
        | l ↦ if is_for l a then (do p ← next; some (pass (a ∷ []) 0 p)) else none
      ]

  -- The letters and the arguments of a call fit together, and the types of its objects are known.
  abbrev pub Matches : List ℕ → List Arg → Type 0
  Matches [] [] = Unit {0}
  Matches (c ∷ fmt) (a ∷ args) =
      (is_for (letter c) a ≡ true) × (letter c ≡ object → knows c ≡ true) × Matches fmt args
  Matches _ _ = ⊥

  -- A call with no results: each argument is pushed, `narg` counts them, and what is behind them stays.
  pub push_args_lem :
      (fmt : List ℕ) (args left : List Arg)
      → Matches fmt args
      → push_args fmt (args ++ left)
        ≡ some (record { pushed = args; narg = length args; rest = []; left = left; errors = 0 })
  unfolding push_args
  push_args_lem [] [] left m = refl
  push_args_lem [] (a ∷ args) left m = absurd m
  push_args_lem (c ∷ fmt) [] left m = absurd m
  push_args_lem (c ∷ fmt) (a ∷ args) left m =
      ground (arith, push_args_lem fmt args left m.2, m.0, m.1)

  separator_lem :
      (res : List ℕ) (left : List Arg)
      → push_args (b'>' ∷ res) left
        ≡ some (record { pushed = []; narg = 1; rest = res; left = left; errors = 1 })
  unfolding push_args letter
  separator_lem res [] = refl
  separator_lem res (a ∷ left) = refl

  -- A call with results: `narg` is one more than the arguments that were pushed, so that the function
  -- itself is taken for an argument, and an error is logged.
  pub push_args_separator :
      (fmt res : List ℕ) (args left : List Arg)
      → Matches fmt args
      → push_args (fmt ++ b'>' ∷ res) (args ++ left)
        ≡ some
            (record { pushed = args; narg = length args + 1; rest = res; left = left; errors = 1 })
  unfolding push_args
  push_args_separator [] res [] left m = separator_lem res left
  push_args_separator [] res (a ∷ args) left m = absurd m
  push_args_separator (c ∷ fmt) res [] left m = absurd m
  push_args_separator (c ∷ fmt) res (a ∷ args) left m =
      ground (arith, push_args_separator fmt res args left m.2, m.0, m.1)
