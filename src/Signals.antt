-- ===== src/Signals.antt =====
-- psignal.h and psignal.cpp: `PSignal`. The table of the kernel is a function from signal numbers.
use pserver.Prelude.{
  ℕ, zero, suc, ◌+◌, ◌≡◌, ◌∙◌, Bool, true, false, not, ◌&&◌, ◌||◌, arith, leb, ltb, ◌==◌,
  if◌then◌else◌,
}

-- `SIG_IGN`, the two handlers, and what the kernel starts with.
pub data Handler : Type 0 where
  default ignore signal_handler signal_handler_with_core : Handler

-- What `sigaction` installs: the handler, and whether `SA_ONESHOT` resets it on delivery.
pub record Action : Type 0 where
  pub handler : Handler
  pub oneshot : Bool

abbrev pub Actions : Type 0
Actions = ℕ → Action

abbrev pub sigint : ℕ
sigint = 2

abbrev pub sigabrt : ℕ
sigabrt = 6

abbrev pub sigfpe : ℕ
sigfpe = 8

abbrev pub sigsegv : ℕ
sigsegv = 11

abbrev pub sigterm : ℕ
sigterm = 15

-- the value of `SIGRTMIN` under the C library that the server links
abbrev pub sigrtmin : ℕ
sigrtmin = 34

abbrev pub action : Handler → Action
action h = record { handler = h; oneshot = true }

-- the condition of the loop as it is written
abbrev pub is_chosen : ℕ → Bool
is_chosen i =
    not (i == sigint)
    || not (i == sigterm)
    || not (i == sigsegv)
    || not (i == sigabrt)
    || not (i == sigfpe)

-- What the program wants of each signal.
abbrev pub is_handled : ℕ → Bool
is_handled i = i == sigint || i == sigterm || i == sigsegv || i == sigabrt || i == sigfpe

abbrev pub is_ignored : ℕ → Bool
is_ignored i = ltb i sigrtmin

pub wanted : Actions → Actions
wanted table i =
    if i == sigrtmin
    then action signal_handler_with_core
    else if is_handled i
    then action signal_handler
    else if is_ignored i
    then action ignore
    else table i

-- `can_set` is the kernel's: there are signals that it lets nobody change.
module _ (can_set : ℕ → Bool) where
  unfoldable pub sigaction : ℕ → Handler → Actions → Actions
  sigaction sig h table i = if sig == i && can_set i then action h else table i

  -- `for (i = 0; i < SIGRTMIN; ++i)`, with the rounds left
  unfoldable pub ignore_loop : ℕ → ℕ → Actions → Actions
  unfolding sigaction
  ignore_loop zero i table = table
  ignore_loop (suc n) i table =
      ignore_loop n (i + 1) (if is_chosen i then sigaction i ignore table else table)

  -- the calls behind the loop
  unfoldable pub handle : Actions → Actions
  unfolding sigaction
  handle table = sigaction sigrtmin signal_handler_with_core (
      sigaction sigfpe signal_handler (
        sigaction sigabrt signal_handler (
          sigaction sigsegv signal_handler
            (sigaction sigterm signal_handler (sigaction sigint signal_handler table)))))

  unfoldable pub regist : Actions → Actions
  regist table = handle (ignore_loop sigrtmin 0 table)

  ignore_loop_lem :
      (n i : ℕ) (table : Actions) (j : ℕ)
      → ignore_loop n i table j
        ≡ (if leb i j && ltb j (i + n) && can_set j then action ignore else table j)
  unfolding ignore_loop
  ignore_loop_lem zero i table j = ground arith
  ignore_loop_lem (suc n) i table j =
      ground (
        arith,
        ignore_loop_lem n (i + 1) (if is_chosen i then sigaction i ignore table else table) j,
      )

  handle_lem :
      (table : Actions) (i : ℕ)
      → can_set i ≡ true
      → handle table i ≡ (
          if i == sigrtmin
          then action signal_handler_with_core
          else if is_handled i
          then action signal_handler
          else table i)
  unfolding handle
  handle_lem table i c = ground arith

  -- For a signal that the kernel lets a program change, after `Regist`: the five fatal signals have
  -- the handler that stops the server, `SIGRTMIN` the one that leaves a core file, every other
  -- signal below is ignored, and the signals above are as they were.
  pub regist-wanted : (table : Actions) (i : ℕ) → can_set i ≡ true → regist table i ≡ wanted table i
  unfolding regist wanted
  regist-wanted table i c =
      rw (handle_lem (ignore_loop sigrtmin 0 table) i c, ignore_loop_lem sigrtmin 0 table i)
        (ground arith)

  handle_refused : (table : Actions) (i : ℕ) → can_set i ≡ false → handle table i ≡ table i
  unfolding handle
  handle_refused table i c = ground arith

  pub regist_refused : (table : Actions) (i : ℕ) → can_set i ≡ false → regist table i ≡ table i
  unfolding regist
  regist_refused table i c =
      handle_refused (ignore_loop sigrtmin 0 table) i c
      ∙ (ignore_loop_lem sigrtmin 0 table i ∙ ground arith)
