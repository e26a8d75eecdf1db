-- ===== src/Threads/Timer.antt =====
-- server.cpp, `Timer`: when the timer runs.
use pserver.Prelude.{ℕ, ◌+◌, ◌*◌, ◌≤◌, ◌≡◌, Bool, true, false, List, [], ◌∷◌, ◌++◌, arith, count_if}
use pserver.Server.{Entry, timer}
use pserver.Threads.{PServer, timer_round, is_running}

-- Rounds of the timer thread at the given readings of the clock.
pub timer_run : {S : Type 0} → List ℕ → PServer S → PServer S
timer_run [] p = p
timer_run (t ∷ ts) p =
    timer_run ts (timer_round (record p { sockets = record p.sockets { cur_time = t } }))

abbrev pub is_timer : Entry → Bool
is_timer timer = true
is_timer _ = false

count-append_timer :
    (es : List Entry) → count_if is_timer (es ++ timer ∷ []) ≡ count_if is_timer es + 1
count-append_timer [] = omega arith
count-append_timer (e ∷ es) = ground (arith, count-append_timer es)

abbrev runs : {S : Type 0} → PServer S → ℕ
runs p = count_if is_timer p.sockets.entries

timer_round-runs :
    {S : Type 0} (p : PServer S)
    → (p.last_check + 11 * runs (timer_round p) ≤ (timer_round p).last_check + 11 * runs p)
      × (runs p ≤ runs (timer_round p))
      × (p.sockets.cur_time ≤ p.last_check + 10 → timer_round p ≡ p)
unfolding timer_round is_running
timer_round-runs p = ground (arith, count-append_timer p.sockets.entries)

timer_run-spaced :
    {S : Type 0} (ts : List ℕ) (p : PServer S)
    → p.last_check + 11 * runs (timer_run ts p) ≤ (timer_run ts p).last_check + 11 * runs p
unfolding timer_run
timer_run-spaced [] p = omega arith
timer_run-spaced (t ∷ ts) p =
    let q = record p { sockets = record p.sockets { cur_time = t } } in
    omega (arith, (timer_round-runs q).0, timer_run-spaced ts (timer_round q))

-- However often the thread wakes up and whatever the clock shows, also when it is set back, two runs
-- of the timer are at least 11 seconds apart: with `n` runs the time of the last run has grown by 11
-- seconds for each.
pub timer_run_spacing :
    {S : Type 0} (ts : List ℕ) (p : PServer S)
    → p.last_check + 11 * count_if is_timer (timer_run ts p).sockets.entries
      ≤ (timer_run ts p).last_check + 11 * count_if is_timer p.sockets.entries
timer_run_spacing ts p = timer_run-spaced ts p
