-- ===== src/ScriptTest.antt =====
-- luatest.h, luatest.cpp and script_test.h: the demonstration class of the Lua binding. What it prints is
-- left out. `m_id` is the pattern of an `int`; `none` is an overflow.
use pserver.Prelude.{
  ℕ, zero, suc, ◌+◌, ◌-◌, ◌%◌, ◌^◌, ◌<◌, ◌≡◌, ◌∙◌, [], ◌∷◌, ◌++◌, append_assoc, append-nil, Option,
  none, some, arith, ◌==◌, if◌then◌else◌, replicate, ◌>>=◌,
}
use pserver.Lua.{Text}

-- `CScriptTest`
pub record CScriptTest : Type 0 where
  pub id : ℕ
  pub name : Text

unfoldable pub script_test : CScriptTest → ℕ
script_test c = 3

-- `++m_id`, and `m_name + "1"`
unfoldable pub change : CScriptTest → Option CScriptTest
change c =
    if c.id == 2 ^ 31 - 1
    then none
    else some (record { id = (c.id + 1) % 2 ^ 32; name = c.name ++ 49 ∷ [] })

-- `n` calls of `Change`
abbrev changes : ℕ → CScriptTest → Option CScriptTest
changes zero c = some c
changes (suc n) c = change c >>= changes n

-- Below the largest `int`, `n` calls of `Change` add `n` to the number and put `n` ones behind the name.
pub changes_lem :
    (n : ℕ) (c : CScriptTest)
    → c.id + n < 2 ^ 31
    → changes n c ≡ some (record { id = c.id + n; name = c.name ++ replicate n 49 })
unfolding change
changes_lem zero c h = ground (arith, append-nil c.name)
changes_lem (suc n) c h =
    let c1 : CScriptTest = record { id = c.id + 1; name = c.name ++ 49 ∷ [] } in
    let first : change c ≡ some c1 = ground arith in
    rw first (
      changes_lem n c1 (omega arith)
      ∙ ground (arith, append_assoc c.name (49 ∷ []) (replicate n 49)))
