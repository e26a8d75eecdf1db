-- ===== src/HashTable/Walks.antt =====
-- hash_table.h: `ForEach` and `DelAll`, which go over the whole table.
use pserver.Prelude.{
  ℕ, ◌≡◌, refl, ap, Bool, true, false, List, [], ◌∷◌, ◌++◌, Option, some, arith, if◌then◌else◌,
  ◌>>=◌,
}
use mathlib.Core.List.{flatten}
use pserver.HashTable.Nodes.{Chain}
use pserver.HashTable.{Table}

module _ {ℓ} {V : Type ℓ} {W : Type 0} where
  -- one chain, until the function gives `false`
  unfoldable pub visit : (ℕ → V → W → W × Bool) → Chain V → W → W × Bool
  visit fun [] w = (w, true)
  visit fun ((id, val) ∷ c) w =
      let (w', go) = fun id val w in let rest = visit fun c w' in if go then rest else (w', false)

  -- the chains in order; `return` leaves both loops
  unfoldable pub visit_all : (ℕ → V → W → W × Bool) → List (Chain V) → W → W × Bool
  unfolding visit
  visit_all fun [] w = (w, true)
  visit_all fun (c ∷ cs) w =
      let (w', go) = visit fun c w in
      let rest = visit_all fun cs w' in if go then rest else (w', false)

  unfoldable pub for_each : (ℕ → V → W → W × Bool) → Table V → W → W
  unfolding visit_all
  for_each fun t w = (visit_all fun t.chains w).0

  -- `delete` is a fault where the value is gone
  unfoldable pub del_chain : (V → W → Option W) → Chain V → W → Option W
  del_chain delete [] w = some w
  del_chain delete ((id, val) ∷ c) w = do w' ← delete val w; del_chain delete c w'

  unfoldable pub del_chains : (V → W → Option W) → List (Chain V) → W → Option W
  unfolding del_chain
  del_chains delete [] w = some w
  del_chains delete (c ∷ cs) w = do w' ← del_chain delete c w; del_chains delete cs w'

  -- `DelAll`: the nodes stay in the table
  unfoldable pub del_all : (V → W → Option W) → Table V → W → Option W
  unfolding del_chains
  del_all delete t w = del_chains delete t.chains w

  visit-append :
      (fun : ℕ → V → W → W × Bool) (c d : Chain V) (w : W)
      → visit fun (c ++ d) w
        ≡ (let r = visit fun c w in if r.1 then visit fun d r.0 else (r.0, false))
  unfolding visit
  visit-append fun [] d w = refl
  visit-append fun ((id, val) ∷ c) d w = ground (arith, visit-append fun c d (fun id val w).0)

  visit_all-visit :
      (fun : ℕ → V → W → W × Bool) (cs : List (Chain V)) (w : W)
      → visit_all fun cs w ≡ visit fun (flatten cs) w
  unfolding visit_all visit flatten
  visit_all-visit fun [] w = refl
  visit_all-visit fun (c ∷ cs) w =
      ground (arith, visit-append fun c (flatten cs) w, visit_all-visit fun cs (visit fun c w).0)

  -- `ForEach` is one walk over the nodes of all chains in their order: the function sees each until it
  -- first gives `false`, and none behind that.
  pub for_each-visit :
      (fun : ℕ → V → W → W × Bool) (t : Table V) (w : W)
      → for_each fun t w ≡ (visit fun (flatten t.chains) w).0
  unfolding for_each
  for_each-visit fun t w = ap (λ r. r.0) (visit_all-visit fun t.chains w)
