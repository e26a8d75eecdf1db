-- ===== src/Logs/Manager.antt =====
-- log_manager.cpp and plog.cpp: how the four files are opened, and how one is closed.
use pserver.Prelude.{
  ℕ, ◌-◌, ◌≡◌, refl, ap, Bool, true, false, List, [], ◌∷◌, ◌++◌, Option, none, some, arith, length,
  take, replicate,
}
use pserver.Logs.{Text, Printer, PLog, new_log, refresh_time, log, init}
use pserver.Logs.Laws.{stamped, IsOpen, FilesAre}

module _ {Arg : Type 0} (c : Printer Arg) (now : ℕ) where
  abbrev text_file : Option Text
  text_file = some (b'.' ∷ b't' ∷ b'x' ∷ b't' ∷ [])

  -- `LogManager()`; `opened` is the line that `init` writes
  unfoldable pub new_manager : Text → Text → List PLog
  new_manager path opened =
      (init c now path (b'N' ∷ b'O' ∷ b'R' ∷ b'M' ∷ b'A' ∷ b'L' ∷ []) text_file true true opened
        new_log).0
      ∷ (init c now path (b'W' ∷ b'A' ∷ b'R' ∷ b'N' ∷ b'I' ∷ b'N' ∷ b'G' ∷ []) text_file true true
          opened new_log).0
      ∷ (init c now path (b'E' ∷ b'R' ∷ b'R' ∷ b'O' ∷ b'R' ∷ []) text_file true true opened
          new_log).0
      ∷ (init c now path (b'A' ∷ b'L' ∷ b'L' ∷ []) text_file true false opened new_log).0
      ∷ []

  -- `CPLog::~CPLog`: a last line, and the file is closed
  unfoldable pub destroy : Text → PLog → PLog
  destroy closing l = record (log c now (some closing) [] l).0 { file = none }

  init-IsOpen :
      (path prefix opened : Text) (file_type : Option Text) (console : Bool)
      → IsOpen c
          (init c now path prefix file_type true console opened new_log).0
          (stamped c now (c.render opened []).0 ∷ [])
  unfolding init new_log refresh_time
  init-IsOpen path prefix opened file_type console =
      let time = take 31 (c.stamp false now) in
      let room : 256 - length time - 1 ≡ 255 - length time = omega arith in
      record {
        opened = ap (λ n. some ((time ++ take n (c.render opened []).0) ∷ [])) room;
        timed = refl;
      }

  -- `LogManager` starts with four files that are open, and each has one line.
  pub new_manager-FilesAre :
      (path opened : Text)
      → FilesAre c
          (new_manager path opened)
          (replicate 4 (stamped c now (c.render opened []).0 ∷ []))
  unfolding new_manager
  new_manager-FilesAre path opened = (
    init-IsOpen path _ opened text_file true,
    (
      init-IsOpen path _ opened text_file true,
      (init-IsOpen path _ opened text_file true, (init-IsOpen path _ opened text_file false, tt)),
    ),
  )
