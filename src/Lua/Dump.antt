-- ===== src/Lua/Dump.antt =====
-- plua.cpp: `PushPointer`, which hands an object to a script, and `StackDump`, which prints the stack.
use pserver.Prelude.{Bool, true, false, List, [], ◌∷◌, ◌++◌, Option, none, some, if◌then◌else◌}
use pserver.Lua.{Text}

-- `lua_type`, as far as `StackDump` tells types apart
pub data Kind : Type 0 where
  string boolean number other : Kind

-- The calls of the Lua library for printing a value. `number_text` is `printf("%g", lua_tonumber(…))`.
pub record Shown (V : Type 0) : Type 0 where
  pub kind : V → Kind
  pub to_string : V → Text
  pub to_boolean : V → Bool
  pub number_text : V → Text
  pub type_name : V → Text

module _ {V : Type 0} where
  -- `query` is `SWIG_TypeQuery`, and `object` what `SWIG_NewPointerObj` pushes; the top of the stack is
  -- the head of the list
  unfoldable pub push_pointer :
      {P T : Type 0}
      → (Text → Option T)
      → (P → T → Bool → V)
      → P
      → Text
      → Bool
      → List V
      → List V × Bool
  push_pointer query object p type owned stack = elim (query type) [
    | none ↦ (stack, false)
    | some info ↦ (object p info owned ∷ stack, true)
  ]

  module _ (lua : Shown V) where
    unfoldable pub dump_value : V → Text
    dump_value v = elim (lua.kind v) [
      | string ↦ b'`' ∷ lua.to_string v ++ b'\'' ∷ []
      | boolean ↦
          if lua.to_boolean v
          then b't' ∷ b'r' ∷ b'u' ∷ b'e' ∷ []
          else b'f' ∷ b'a' ∷ b'l' ∷ b's' ∷ b'e' ∷ []
      | number ↦ lua.number_text v
      | other ↦ lua.type_name v
    ]

    -- the loop over the levels, lowest first, with two blanks behind each
    unfoldable pub dump_values : List V → Text
    unfolding dump_value
    dump_values [] = []
    dump_values (v ∷ levels) = dump_value v ++ b' ' ∷ b' ' ∷ dump_values levels

    unfoldable pub stack_dump : List V → Text
    unfolding dump_values
    stack_dump levels = dump_values levels ++ b'\n' ∷ []
