-- ===== src/Threads/Ending.antt =====
-- main.cpp and server.cpp: the program comes to an end, and what is left of its threads.
use pserver.Prelude.{
  ℕ, ◌≡◌, refl, inl, inr, true, false, List, [], ◌∷◌, ◌++◌, some, Bool-cases, Returns,
}
use pserver.Kernel.{Kernel}
use pserver.Lua.{Text}
use pserver.Server.Setup.{SetupCalls}
use pserver.Threads.{PServer, is_running, stop, run_round}
use pserver.Threads.Lifecycle.{Process, Ran, finished, init, join, run_loop, serve}

module _ {S : Type 0} (k : Kernel S) (c : SetupCalls S) where
  -- Each call of `DespatchEvent` comes back that the loop makes: one before each of the changes
  -- `before` by the other threads, and one more.
  abbrev pub ComesBack : ℕ → List (PServer S → PServer S) → PServer S → Type 0
  ComesBack fuel [] p = (q : PServer S) × (run_round k fuel p ≡ some (some q))
  ComesBack fuel (other ∷ before) p =
      (q : PServer S) × (run_round k fuel p ≡ some (some q)) × ComesBack fuel before (other q)

  -- The loop has come to its end.
  abbrev pub HasEnded : Ran S → Type 0
  HasEnded ran = (s : PServer S) × (ran ≡ finished s) × (is_running s ≡ false)

  stopped :
      (fuel : ℕ) (after : List (PServer S → PServer S)) (p : PServer S)
      → is_running p ≡ false
      → Returns (run_loop k c fuel after p) HasEnded
  unfolding run_loop
  stopped fuel [] p off = (finished p, rw off refl, (p, refl, off))
  stopped fuel (other ∷ after) p off = (finished p, rw off refl, (p, refl, off))

  run_loop-stops :
      (fuel : ℕ) (before after : List (PServer S → PServer S)) (p : PServer S)
      → ComesBack fuel before p
      → Returns (run_loop k c fuel (before ++ stop ∷ after) p) HasEnded
  unfolding run_loop
  run_loop-stops fuel [] after p (q, e) =
      let (ran, g, ok) = stopped fuel after (stop q) (unfold is_running stop in refl) in
      elim (Bool-cases (is_running p)) [
        | inr off ↦ (finished p, rw off refl, (p, refl, off))
        | inl on ↦ (ran, rw (on, e, g) refl, ok)
      ]
  run_loop-stops fuel (other ∷ before) after p (q, e, back) =
      let (ran, g, ok) = run_loop-stops fuel before after (other q) back in
      elim (Bool-cases (is_running p)) [
        | inr off ↦ (finished p, rw off refl, (p, refl, off))
        | inl on ↦ (ran, rw (on, e, g) refl, ok)
      ]

  -- `Init` sets up the sockets, the other threads make the changes `before` behind the first rounds of
  -- `Run`, whatever these are, and then a signal stops the server. Where each call of `DespatchEvent`
  -- up to there comes back, the loop ends whatever is to follow, `Join` comes back, and the program
  -- returns 0 with the flag cleared and no thread left when it deletes the server.
  pub serve-ends :
      (fuel : ℕ) (before after : List (PServer S → PServer S)) (port : Text) (p : Process S)
      → ComesBack fuel before (init k c port p).1.server
      → (init k c port p).0 ≡ true
      → (p' : Process S) × (serve k c fuel (before ++ stop ∷ after) port p ≡ some (some (0, p')))
        × (is_running p'.server ≡ false)
        × (p'.threads ≡ [])
        × (p'.deleted ≡ true)
  unfolding serve join
  serve-ends fuel before after port p back ready =
      let p1 = (init k c port p).1 in
      let (ran, e, (s, f, off)) = run_loop-stops fuel before after p1.server back in
      (
        record p1 { published = true; server = s; threads = []; deleted = true },
        rw (ready, e, f, off) refl,
        off,
        refl,
        refl,
      )
