-- ===== src/Lua.antt =====
-- plua.h and plua.cpp: `PLua`, what the program reads from a Lua state and how it calls a function of
-- it. The Lua library is the parameter `Lua`; texts are lists of bytes without NUL. `none` is an error
-- that Lua raises with no protected call around it, or undefined behaviour.
pub mod Laws
pub mod Call
pub mod Results
pub mod Loading
pub mod Dump
use pserver.Prelude.{
  ℕ, zero, suc, ◌+◌, ◌-◌, ◌*◌, ◌/◌, ◌%◌, ◌^◌, ◌≤◌, ◌<◌, ◌≡◌, refl, sym, ap, subst, ◌∙◌, ◌≢◌, ◌⊎◌,
  inl, inr, Bool, true, false, not, ◌&&◌, ◌||◌, List, [], ◌∷◌, ◌++◌, map, append_assoc, append-nil,
  Option, none, some, arith, leb, ltb, ◌==◌, ==_iff, if◌then◌else◌, Bool-cases, lt→ltb, not-ltb,
  ==_refl, ==_ne, Option-cases, length, get_elem?, get_or, set, count_if, take, drop, replicate,
  All, get_elem?-none, get_or-set_ne, length-append, length-set, length-take, length-drop,
  length-replicate, ◌>>=◌, ◌>>◌, Returns,
}

abbrev pub Text : Type 0
Text = List ℕ

-- The values of a Lua state, as far as the code looks into them. `index` is `lua_gettable`.
pub record Lua (V : Type 0) : Type 0 where
  pub global : Text → V
  pub is_string : V → Bool
  pub is_table : V → Bool
  pub to_string : V → Text
  pub index : V → Text → Option V

-- What is logged: `%s is not a string` and `%s is not a table`.
pub data Entry : Type 0 where
  not_string : Text → Entry
  not_table : Text → Entry

-- `va_arg`: the next argument, with those behind it
unfoldable pub next_arg : List Text → Option (Text × List Text)
next_arg [] = none
next_arg (a ∷ args) = some (a, args)

module _ {V : Type 0} (lua : Lua V) where
  -- `GetVal(key, value)` on a variable that held `old`
  unfoldable pub get_val : Text → Text → Text
  get_val key old = let v = lua.global key in if lua.is_string v then lua.to_string v else old

  -- `lua_pushstring(key)` and `lua_gettable(-2)`: the field stands on top of the table
  unfoldable pub get_table : Text → List V → Option (V × List V)
  get_table key [] = none
  get_table key (t ∷ stack) = do v ← lua.index t key; some (v, v ∷ t ∷ stack)

  -- the last key: the value has to be a string
  unfoldable pub take_string : Text → V → Text → Text × List Entry
  take_string key v old =
      if lua.is_string v then (lua.to_string v, []) else (old, not_string key ∷ [])

  -- `GetValList` with `isFirstIn` false, by `argn`: with three keys or more it takes no argument, and
  -- the key stays empty
  unfoldable pub get_val_rest : ℕ → List Text → List V → Text → Option (Text × List Entry)
  unfolding get_table next_arg take_string
  get_val_rest zero args stack old = some ([], [])
  get_val_rest (suc n) args stack old = do
    (key, args') ← if leb 2 n then some ([], args) else next_arg args
    (v, stack') ← get_table key stack
    let rest = get_val_rest n args' stack' old
    elim n [
      | zero ↦ some (take_string key v old)
      | suc m ↦ if lua.is_table v then rest else some (old, not_table key ∷ [])
    ]

  -- `GetVal(value, argn, …)`, which sets the stack to empty, with `GetValList` at its first call
  unfoldable pub get_val_list : ℕ → List Text → Text → Option (Text × List Entry)
  unfolding get_val_rest
  get_val_list zero args old = some ([], [])
  get_val_list (suc zero) args old = do
    (key, args') ← next_arg args
    let v = lua.global key
    some (if lua.is_string v then lua.to_string v else old, [])
  get_val_list (suc (suc zero)) args old = do
    (key, args') ← next_arg args
    let t = lua.global key
    if lua.is_table t
        then (do
          (last, args'') ← next_arg args'
          (v, stack) ← get_table last (t ∷ [])
          some (take_string last v old))
        else some (old, not_table key ∷ [])
  get_val_list (suc (suc (suc n))) args old = do
    (key, args') ← next_arg args
    (second, args'') ← next_arg args'
    (v, stack) ← get_table second (lua.global key ∷ [])
    if lua.is_table v
        then get_val_rest (suc n) args'' stack old
        else some (old, not_table second ∷ [])
