-- ===== src/Logs/Laws.antt =====
-- plog.cpp and log_manager.cpp: what stands in the files after a call.
use pserver.Prelude.{
  ℕ, zero, suc, ◌-◌, ◌≤◌, ◌<◌, ◌≡◌, refl, ap, subst, ◌∙◌, inl, inr, Bool, true, false, List, Option,
  [], ◌∷◌, ◌++◌, none, some, arith, ◌==◌, Bool-cases, length, get_elem?, get_or, set, take,
  get_elem?-none, get_or-set_ne, length-append, length-set, length-take, Returns,
}
use pserver.Logs.{Text, Printer, PLog, line, log, get_log, do_log, all, write_log}

module _ {Arg : Type 0} (c : Printer Arg) where
  -- The line that a call adds to a file that shows the time.
  abbrev pub stamped : ℕ → Text → Text
  stamped now text = let time = take 31 (c.stamp false now) in time ++ take (255 - length time) text

  -- With a text for the time of at most 31 bytes, the line that is logged is at most 255 bytes
  -- long, whether the file shows the time or not.
  pub length-line :
      (show : Bool) (time text : Text) → length time ≤ 31 → length (line c show time text) ≤ 255
  unfolding line
  length-line true time text h = omega (
    arith,
    length-append time (take (256 - length time - 1) text),
    length-take (256 - length time - 1) text,
  )
  length-line false time text h = omega (arith, length-take 255 text)

  -- A file that is open and shows the time.
  pub record IsOpen (l : PLog) (lines : List Text) : Type 0 where
    pub opened : l.file ≡ some lines
    pub timed : l.show_time ≡ true

  log_lem :
      (now : ℕ) (format : Text) (args : List Arg) (l : PLog) (lines : List Text)
      → IsOpen l lines
      → IsOpen
          (log c now (some format) args l).0
          (lines ++ stamped now (c.render format args).0 ∷ [])
        × ((log c now (some format) args l).1 ≡ (c.render format args).1)
  unfolding log
  log_lem now format args l lines o =
      let k = length (take 31 (c.stamp false now)) in
      let room : 256 - k - 1 ≡ 255 - k = omega arith in
      let cut = ap (λ n. take n (c.render format args).0) room in ground (arith, cut)

  abbrev pub FilesAre : List PLog → List (List Text) → Type 0
  FilesAre [] [] = Unit {0}
  FilesAre (l ∷ ls) (f ∷ fs) = IsOpen l f × FilesAre ls fs
  FilesAre _ _ = ⊥

  abbrev pub added : ℕ → Text → List Text → List Text
  added now text lines = lines ++ stamped now text ∷ []

  file_at :
      (type : ℕ) (logs : List PLog) (files : List (List Text))
      → FilesAre logs files
      → type < length files
      → (l : PLog) × (get_elem? logs type ≡ some l)
        × IsOpen l (get_or files type [])
        × ((l' : PLog) (f : List Text)
            → IsOpen l' f
            → FilesAre (set logs type l') (set files type f))
  file_at type [] [] o h = absurd (omega arith)
  file_at type [] (f ∷ fs) o h = absurd o
  file_at type (l ∷ ls) [] o h = absurd o
  file_at zero (l ∷ ls) (f ∷ fs) o h = (l, refl, o.0, λ l' f' new. (new, o.1))
  file_at (suc type) (l ∷ ls) (f ∷ fs) o h =
      let (m, found, open_, write) = file_at type ls fs o.1 (omega arith) in
      (m, found, open_, λ l' f' new. (o.0, write l' f' new))

  do_log_lem :
      (now type : ℕ) (format : Text) (args : List Arg) (logs : List PLog) (files : List (List Text))
      → length files ≡ 4
      → type < 4
      → FilesAre logs files
      → Returns (do_log c now type format args logs) λ r.
        FilesAre r.0 (set files type (added now (c.render format args).0 (get_or files type [])))
        × (r.1 ≡ (c.render format args).1)
  unfolding do_log get_log
  do_log_lem now type format args logs files four h o =
      let (l, found, open_, write) = file_at type logs files o (omega arith) in
      let (open', rest) = log_lem now format args l (get_or files type []) open_ in
      (
        (set logs type (log c now (some format) args l).0, (log c now (some format) args l).1),
        ground (arith, found),
        (write _ _ open', rest),
      )

  -- The files after a call, or a fault.
  abbrev pub Written : Bool → Option (List PLog) → List (List Text) → Type 0
  Written true r files = Returns r λ logs'. FilesAre logs' files
  Written false r files = r ≡ none

  -- `Log`, `Warn` and `Err` on four open files that show the time. Where the format takes no argument,
  -- they add one line to the file of their kind and one, with the tag in front of the format, to the
  -- file of all, and the others stay as they were. Where it takes any, the second call reads from the
  -- used `va_list`, which is a fault, whatever is logged.
  pub write_log_lem :
      (now type : ℕ) (tag format : Text) (args : List Arg) (logs : List PLog)
      (files : List (List Text))
      → length files ≡ 4
      → type < 3
      → FilesAre logs files
      → let first = c.render format args in
        let own = added now first.0 (get_or files type []) in
        let every = added now (c.render (tag ++ format) first.1).0 (get_or files 3 []) in
        Written
          (length first.1 == length args)
          (write_log c now type tag format args logs)
          (set (set files type own) 3 every)
  unfolding write_log all
  write_log_lem now type tag format args logs files four h o =
      let first = c.render format args in
      let own = added now first.0 (get_or files type []) in
      let (r1, e1, (o1, a1)) = do_log_lem now type format args logs files four (omega arith) o in
      let (r2, e2, (o2, a2)) =
        do_log_lem now 3 (tag ++ format) r1.1 r1.0 (set files type own)
          (length-set files type own ∙ four) (omega arith) o1 in
      let files1 = set files type own in
      let add = λ (a : List Arg) (old : List Text).
        FilesAre r2.0 (set files1 3 (added now (c.render (tag ++ format) a).0 old)) in
      let kept = get_or-set_ne files type 3 own [] (λ e. absurd (omega arith)) in
      let left = ap (λ a. length a == length args) a1 in
      elim (Bool-cases (length first.1 == length args)) [
        | inl unused ↦ rw unused (
          r2.0,
          rw (e1, left, unused, e2) refl,
          subst (add first.1) kept (subst (λ a. add a (get_or files1 3 [])) a1 o2),
        )
        | inr used ↦ rw (used, e1, left, used) refl
      ]

  -- A type that is none of the four faults: 4 is read past the array, and any other, also a negative
  -- one, is a call through a null pointer.
  pub do_log_fault :
      (now type : ℕ) (format : Text) (args : List Arg) (logs : List PLog)
      → length logs ≡ 4
      → 4 ≤ type
      → do_log c now type format args logs ≡ none
  unfolding do_log get_log
  do_log_fault now type format args logs four h = ground (arith, get_elem?-none logs type)
