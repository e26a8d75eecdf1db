-- ===== src/Lua/Loading.antt =====
-- plua.h and plua.cpp: how `PLua` loads its file, at the start and in `Reload`.
use pserver.Prelude.{ℕ, ◌-◌, Bool, not, List, [], ◌∷◌, ◌++◌, if◌then◌else◌, take}
use pserver.Lua.{Text}

-- `PLua`: the handle of its Lua state, and the name of its file.
pub record PLua : Type 0 where
  pub state : ℕ
  pub file : Text

-- `new_state` is `luaL_newstate` with the libraries and the module of the program, `load_file` and
-- `run` tell whether `luaL_loadfile` and `lua_pcall` returned 0, and `reason` is the text on the stack.
pub record Loader (W : Type 0) : Type 0 where
  pub new_state : W → ℕ × W
  pub load_file : ℕ → Text → W → Bool × W
  pub run : ℕ → W → Bool × W
  pub reason : ℕ → W → Text

-- `load file:%s failed, reason:%s`
pub data LoadError : Type 0 where
  load_failed : Text → Text → LoadError

abbrev pub path_len : ℕ
path_len = 128

module _ {W : Type 0} (loader : Loader W) where
  -- `Reload`: a file that does not load is not run
  unfoldable pub reload : PLua → W → List LoadError × W
  reload p w =
      let (loaded, w1) = loader.load_file p.state p.file w in
      if not loaded
      then (load_failed p.file (loader.reason p.state w1) ∷ [], w1)
      else (let (ran, w2) = loader.run p.state w1 in
          (if ran then [] else load_failed p.file (loader.reason p.state w2) ∷ [], w2))

  -- `PLua(file)`: the path goes into an array of 128 bytes
  unfoldable pub new : Text → Text → W → PLua × List LoadError × W
  unfolding reload
  new script_path file w =
      let (state, w1) = loader.new_state w in
      let p : PLua = record { state = state; file = take (path_len - 1) (script_path ++ file) } in
      let (errors, w2) = reload p w1 in (p, errors, w2)
