-- ===== src/Lua/Laws.antt =====
-- plua.cpp, `GetVal` with several keys: which value it finds.
use pserver.Prelude.{
  ◌≤◌, ◌≡◌, true, false, List, [], ◌∷◌, Option, none, some, arith, if◌then◌else◌, length, ◌>>=◌,
}
use pserver.Lua.{Text, Lua, not_table, next_arg, get_table, take_string, get_val_rest, get_val_list}

module _ {V : Type 0} (lua : Lua V) where
  -- The value that the keys lead to, through tables.
  unfoldable pub walk : V → List Text → Option V
  walk v [] = some v
  walk v (k ∷ ks) =
      let next = (do w ← lua.index v k; walk w ks) in if lua.is_table v then next else none

  -- One to four keys that lead to a string through tables: `GetVal` gives this string and logs nothing.
  pub get_val_list_lem :
      (key : Text) (keys : List Text) (old : Text) (v : V)
      → length keys ≤ 3
      → walk (lua.global key) keys ≡ some v
      → lua.is_string v ≡ true
      → get_val_list lua (length (key ∷ keys)) (key ∷ keys) old ≡ some (lua.to_string v, [])
  unfolding walk get_val_list get_val_rest get_table next_arg take_string
  get_val_list_lem key [] old v h w s = ground arith
  get_val_list_lem key (a ∷ []) old v h w s = ground arith
  get_val_list_lem key (a ∷ b ∷ []) old v h w s = ground arith
  get_val_list_lem key (a ∷ b ∷ c ∷ []) old v h w s = ground arith
  get_val_list_lem key (a ∷ b ∷ c ∷ d ∷ keys) old v h w s = absurd (omega arith)

  -- Five keys or more: after the second key the code goes on with the empty key. Where the second key
  -- leads to a table with no table under the empty key, it finds nothing, whatever stands under the
  -- other keys, and logs an empty name.
  pub get_val_list_lost :
      (key second : Text) (keys : List Text) (old : Text) (t w : V)
      → 3 ≤ length keys
      → lua.index (lua.global key) second ≡ some t
      → lua.is_table t ≡ true
      → lua.index t [] ≡ some w
      → lua.is_table w ≡ false
      → get_val_list lua (length (key ∷ second ∷ keys)) (key ∷ second ∷ keys) old
        ≡ some (old, not_table [] ∷ [])
  unfolding get_val_list get_val_rest get_table next_arg
  get_val_list_lost key second [] old t w h e ht f hw = absurd (omega arith)
  get_val_list_lost key second (a ∷ []) old t w h e ht f hw = absurd (omega arith)
  get_val_list_lost key second (a ∷ b ∷ []) old t w h e ht f hw = absurd (omega arith)
  get_val_list_lost key second (a ∷ b ∷ c ∷ keys) old t w h e ht f hw = ground arith
