-- ===== src/Time.antt =====
-- time_manager.h, utility.h: the cached clock, and the warning about slow handlers.
use pserver.Prelude.{
  ℕ, ◌+◌, ◌-◌, ◌*◌, ◌%◌, ◌^◌, ◌≤◌, ◌<◌, ◌≡◌, ◌&&◌, arith, leb, ltb, ◌==◌, if◌then◌else◌,
}

-- `TimeManager`: `m_curTime`, which `Sync` sets from the system's clock
pub record TimeManager : Type 0 where
  pub cur_time : ℕ

unfoldable pub start : TimeManager
start = record { cur_time = 0 }

unfoldable pub sync : ℕ → TimeManager → TimeManager
sync now t = record { cur_time = now }

unfoldable pub get_time : TimeManager → ℕ
get_time t = t.cur_time

-- `timeval`
pub record TimeVal : Type 0 where
  pub tv_sec : ℕ
  pub tv_usec : ℕ

-- `TimePrint`, once constructed; the name is left out
pub record TimePrint : Type 0 where
  pub time : TimeVal
  pub sock : ℕ

-- What the destructor logs.
pub data Warning : Type 0 where
  silent : Warning
  slow : ℕ → Warning
  slow_on_sock : ℕ → ℕ → Warning

abbrev pub in_usec : TimeVal → ℕ
in_usec t = 1000000 * t.tv_sec + t.tv_usec

-- The difference goes into an `int`: its pattern modulo 2 ^ 32.
unfoldable pub usec : TimeVal → TimeVal → ℕ
usec from to = (in_usec to + 2 ^ 32 * in_usec from - in_usec from) % 2 ^ 32

-- `usec >= 10000` for a signed pattern, and `m_sock == 0`
unfoldable pub destroy : TimePrint → TimeVal → Warning
unfolding usec
destroy p now =
    let us = usec p.time now in
    if leb 10000 us && ltb us (2 ^ 31)
    then (if p.sock == 0 then slow us else slow_on_sock us p.sock)
    else silent

-- What the warning should be after `elapsed` microseconds.
pub expected : ℕ → ℕ → Warning
expected sock elapsed =
    if ltb elapsed 10000
    then silent
    else if sock == 0
    then slow elapsed
    else slow_on_sock elapsed sock

-- A call that takes less than 2 ^ 31 microseconds is reported with its time, and with its socket
-- unless that is 0, exactly when it takes 10 milliseconds or more.
pub destroy-expected :
    (p : TimePrint) (now : TimeVal) (elapsed : ℕ)
    → in_usec now ≡ in_usec p.time + elapsed
    → elapsed < 2 ^ 31
    → destroy p now ≡ expected p.sock elapsed
unfolding destroy expected
destroy-expected p now elapsed e h = ground arith

-- A call that takes from 2 ^ 31 up to 2 ^ 32 - 1 microseconds is not reported at all.
pub destroy_silent :
    (p : TimePrint) (now : TimeVal) (elapsed : ℕ)
    → in_usec now ≡ in_usec p.time + elapsed
    → 2 ^ 31 ≤ elapsed
    → elapsed < 2 ^ 32
    → destroy p now ≡ silent
unfolding destroy
destroy_silent p now elapsed e lo hi = ground arith
