-- ===== src/HashTable/Contents.antt =====
-- The table without its buckets and the order in its chains: tables in which every index finds the same
-- are one, and the operations are operations on that.
use pserver.Prelude.{
  ℕ, ◌≡◌, refl, sym, ap, ◌∙◌, ◌≢◌, ◌&&◌, none, some, arith, ◌==◌, if◌then◌else◌, is_none,
}
use mathlib.Core.Quot
use mathlib.Core.Quot.{Quot, Quot-set}
use pserver.HashTable.{Table, find, insert, erase}
use pserver.HashTable.Laws.{IsValid, find-insert, find-erase, insert-IsValid, erase-IsValid}

module _ (V : Type 0) where
  abbrev pub WellFormed : Type 0
  WellFormed = (t : Table V) × IsValid t

  abbrev pub SameFinds : WellFormed → WellFormed → Type 0
  SameFinds a b = (j : ℕ) → find j a.0 ≡ find j b.0

  abbrev pub Contents : Type 0
  Contents = Quot SameFinds

module _ {V : Type 0} where
  abbrev pub inserted : ℕ → V → WellFormed V → WellFormed V
  inserted i val a = (insert i val a.0, insert-IsValid i a.0 a.1 val)

  abbrev pub erased : ℕ → WellFormed V → WellFormed V
  erased i a = ((erase i a.0).0, erase-IsValid i a.0 a.1)

  pub inserted-SameFinds :
      (i : ℕ) (val : V) (a b : WellFormed V)
      → SameFinds V a b
      → SameFinds V (inserted i val a) (inserted i val b)
  inserted-SameFinds i val a b h j =
      find-insert i a.0 a.1 j val ∙ (rw (h i, h j) refl ∙ sym (find-insert i b.0 b.1 j val))

  pub erased-SameFinds :
      (i : ℕ) (a b : WellFormed V) → SameFinds V a b → SameFinds V (erased i a) (erased i b)
  erased-SameFinds i a b h j =
      find-erase i a.0 a.1 j ∙ (rw (h j) refl ∙ sym (find-erase i b.0 b.1 j))

  -- `Insert` and `Erase` on what a table holds.
  unfoldable pub put : ℕ → V → Contents V → Contents V
  put i val =
      Quot.lift Quot-set (λ a. Quot.mk (inserted i val a))
        (λ a b h. Quot.sound (inserted-SameFinds i val a b h))

  unfoldable pub remove : ℕ → Contents V → Contents V
  remove i =
      Quot.lift Quot-set (λ a. Quot.mk (erased i a))
        (λ a b h. Quot.sound (erased-SameFinds i a b h))

  find-inserted :
      (i j n : ℕ) (x y : V) (a : WellFormed V)
      → find n (inserted i x (inserted j y a)).0 ≡ (
          if i == n && is_none (if j == i && is_none (find j a.0) then some y else find i a.0)
          then some x
          else if j == n && is_none (find j a.0)
          then some y
          else find n a.0)
  find-inserted i j n x y a =
      let (t, v) = inserted j y a in
      find-insert i t v n x ∙ rw (find-insert j a.0 a.1 i y, find-insert j a.0 a.1 n y) refl

  put_comm :
      (i j : ℕ) (x y : V) → i ≢ j → (c : Contents V) → put i x (put j y c) ≡ put j y (put i x c)
  unfolding put
  put_comm i j x y ne =
      Quot.ind (λ c. Quot-set _ _)
        (λ a. Quot.sound (λ n.
          find-inserted i j n x y a
          ∙ (ground (arith, ap (λ k. find k a.0) {x = i} {y = j})
              ∙ sym (find-inserted j i n y x a))))

  put-put : (i : ℕ) (x y : V) (c : Contents V) → put i x (put i y c) ≡ put i y c
  unfolding put
  put-put i x y =
      Quot.ind (λ c. Quot-set _ _)
        (λ a.
          Quot.sound
            (λ n. find-inserted i i n x y a ∙ (ground arith ∙ sym (find-insert i a.0 a.1 n y))))

  remove-put : (i : ℕ) (x : V) (c : Contents V) → remove i (put i x c) ≡ remove i c
  unfolding put remove
  remove-put i x =
      Quot.ind (λ c. Quot-set _ _)
        (λ a. Quot.sound (λ n.
          let b = inserted i x a in
          find-erase i b.0 b.1 n
          ∙ (rw (find-insert i a.0 a.1 n x) (ground arith) ∙ sym (find-erase i a.0 a.1 n))))

  find-erased-inserted :
      (i j n : ℕ) (y : V) (a : WellFormed V)
      → find n (erased i (inserted j y a)).0
        ≡ (if i == n then none else if j == n && is_none (find j a.0) then some y else find n a.0)
  find-erased-inserted i j n y a =
      let (t, v) = inserted j y a in find-erase i t v n ∙ rw (find-insert j a.0 a.1 n y) refl

  find-inserted-erased :
      (i j n : ℕ) (y : V) (a : WellFormed V)
      → find n (inserted j y (erased i a)).0 ≡ (
          if j == n && is_none (if i == j then none else find j a.0)
          then some y
          else if i == n
          then none
          else find n a.0)
  find-inserted-erased i j n y a =
      let (t, v) = erased i a in
      find-insert j t v n y ∙ rw (find-erase i a.0 a.1 j, find-erase i a.0 a.1 n) refl

  remove-put_comm :
      (i j : ℕ) (y : V) → i ≢ j → (c : Contents V) → remove i (put j y c) ≡ put j y (remove i c)
  unfolding put remove
  remove-put_comm i j y ne =
      Quot.ind (λ c. Quot-set _ _)
        (λ a. Quot.sound (λ n.
          find-erased-inserted i j n y a ∙ (ground arith ∙ sym (find-inserted-erased i j n y a))))

  -- On well-formed tables taken up to what each index finds, `Insert` and `Erase` of two different
  -- indexes may change places; a second `Insert` at an index does nothing; and `Erase` after an
  -- `Insert` at the same index is `Erase`.
  pub contents_laws :
      (i j : ℕ) (x y : V) (c : Contents V)
      → i ≢ j
      → (put i x (put j y c) ≡ put j y (put i x c))
        × (remove i (put j y c) ≡ put j y (remove i c))
        × (put i x (put i y c) ≡ put i y c)
        × (remove i (put i x c) ≡ remove i c)
  contents_laws i j x y c ne =
      (put_comm i j x y ne c, remove-put_comm i j y ne c, put-put i x y c, remove-put i x c)
