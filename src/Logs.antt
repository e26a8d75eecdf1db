-- ===== src/Logs.antt =====
-- plog.h, plog.cpp, log_manager.h and log_manager.cpp: `CPLog`, one log file, and `LogManager`, the four
-- files of the program. Texts are lists of bytes without NUL. What the C library renders comes in as
-- a parameter: `Printer`.
pub mod Laws
pub mod Manager
use pserver.Prelude.{
  ℕ, zero, suc, ◌+◌, ◌-◌, ◌*◌, ◌/◌, ◌%◌, ◌^◌, ◌≤◌, ◌<◌, ◌≡◌, refl, sym, ap, subst, ◌∙◌, ◌≢◌, ◌⊎◌,
  inl, inr, Bool, true, false, not, ◌&&◌, ◌||◌, List, [], ◌∷◌, ◌++◌, map, append_assoc, append-nil,
  Option, none, some, arith, leb, ltb, ◌==◌, ==_iff, if◌then◌else◌, Bool-cases, lt→ltb, not-ltb,
  ==_refl, ==_ne, Option-cases, length, get_elem?, get_or, set, count_if, take, drop, replicate,
  All, length-append, length-set, length-take, length-drop, length-replicate, ◌>>=◌, ◌>>◌, Returns,
}

abbrev pub Text : Type 0
Text = List ℕ

-- `vsnprintf` renders a format with its arguments and leaves the `va_list` behind those that it used;
-- `stamp` is the text of `localtime` and `snprintf` for a time, simple or in brackets,
-- and `exists` is `access` with `F_OK`.
pub record Printer (Arg : Type 0) : Type 0 where
  pub render : Text → List Arg → Text × List Arg
  pub stamp : Bool → ℕ → Text
  pub exists : Text → Bool

abbrev pub time_size : ℕ
time_size = 32

abbrev pub log_size : ℕ
log_size = 256

-- What goes to the console, there is no file, there is no format, or a line with its prefix; and the
-- commands for the shell.
pub data Printed : Type 0 where
  no_file no_format : Printed
  echoed : Text → Text → Printed
  command : Text → Printed

-- `CPLog` with what is in its file and what it has printed; `file` is `none` while `m_pFos` is null
pub record PLog : Type 0 where
  pub path : Text
  pub file : Option (List Text)
  pub prefix : Text
  pub show_time : Bool
  pub show_console : Bool
  pub time_text : Text
  pub console : List Printed

unfoldable pub new_log : PLog
new_log = record {
  path = [];
  file = none;
  prefix = [];
  show_time = false;
  show_console = false;
  time_text = [];
  console = [];
}

abbrev make_directory : Text
make_directory = b'm' ∷ b'k' ∷ b'd' ∷ b'i' ∷ b'r' ∷ b' ' ∷ b'-' ∷ b'p' ∷ b' ' ∷ []

module _ {Arg : Type 0} (c : Printer Arg) where
  -- `refreshTime`: `snprintf` into an array of 32 bytes
  unfoldable pub refresh_time : Bool → ℕ → PLog → PLog
  refresh_time simple now l = record l { time_text = take (time_size - 1) (c.stamp simple now) }

  -- what `m_cstrLog` holds: `vsnprintf` writes behind the time, into what is left of 256 bytes
  unfoldable pub line : Bool → Text → Text → Text
  line show_time time text =
      if show_time then time ++ take (log_size - length time - 1) text else take (log_size - 1) text

  -- `log`, in both overloads, with the arguments that it leaves
  unfoldable pub log : ℕ → Option Text → List Arg → PLog → PLog × List Arg
  unfolding refresh_time line
  log now format args l = elim l.file [
    | none ↦ (record l { console = l.console ++ no_file ∷ [] }, args)
    | some lines ↦ elim format [
      | none ↦ (record l { console = l.console ++ no_format ∷ [] }, args)
      | some text ↦
          let l' = if l.show_time then refresh_time false now l else l in
          let (rendered, args') = c.render text args in
          let written = line l.show_time l'.time_text rendered in
          let shown = if l.show_console then echoed l.prefix written ∷ [] else [] in
          (record l' { file = some (lines ++ written ∷ []); console = l.console ++ shown }, args')
    ]
  ]

  -- `init`: the test `!m_pFos` behind `open` is one of the pointer, so it never fails
  unfoldable pub init : ℕ → Text → Text → Option Text → Bool → Bool → Text → PLog → PLog × Bool
  unfolding log refresh_time
  init now path prefix file_type show_time show_console opened l =
      let made =
        if c.exists (b'c' ∷ b'd' ∷ b' ' ∷ path)
        then []
        else command (make_directory ++ path) ∷ [] in
      let timed =
        refresh_time true now (record l { file = some []; console = l.console ++ made }) in
      let full = path ++ (prefix ++ (b'_' ∷ timed.time_text)) in
      let named = record timed {
        path = elim file_type [ none ↦ full | some ext ↦ full ++ ext ];
        prefix = prefix;
        show_time = show_time;
        show_console = show_console;
      } in
      ((log now (some opened) [] named).0, true)

  abbrev pub log_num : ℕ
  log_num = 4

  -- `GetLog`: an outer `none` is a read past the array, an inner one the null pointer
  unfoldable pub get_log : ℕ → List PLog → Option (Option PLog)
  get_log type logs =
      if leb (2 ^ 31) type || ltb log_num type
      then some none
      else elim (get_elem? logs type) [ none ↦ none | some l ↦ some (some l) ]

  -- `DoLog` calls through the pointer
  unfoldable pub do_log : ℕ → ℕ → Text → List Arg → List PLog → Option (List PLog × List Arg)
  unfolding get_log
  do_log now type format args logs = do
    found ← get_log type logs
    elim found [
      | none ↦ none
      | some l ↦ let (l', args') = log now (some format) args l in some (set logs type l', args')
    ]

  -- `All`
  unfoldable pub all : ℕ → Text → Text → List Arg → List PLog → Option (List PLog × List Arg)
  all now tag format args logs = do_log now 3 (tag ++ format) args logs

  -- `Log`, `Warn` and `Err` are this at 0, 1 and 2: both calls get the same `va_list`. Once the first
  -- has taken an argument out of it, what the second reads from it is undefined: `none`.
  unfoldable pub write_log : ℕ → ℕ → Text → Text → List Arg → List PLog → Option (List PLog)
  unfolding all
  write_log now type tag format args logs = do
    (logs1, args1) ← do_log now type format args logs
    if length args1 == length args
        then (do (logs2, args2) ← all now tag format args1 logs1; some logs2)
        else none
