-- ===== src/Tests/Tables.antt =====
-- Hash tables: calls on a small one, and its contents.
use pserver.Prelude.{ℕ, ◌≡◌, List, [], ◌∷◌, none, arith}
use mathlib.Core.Quot
use pserver.HashTable
use pserver.HashTable.Laws.{with_buckets-IsValid, insert-IsValid, find-with_buckets}
use pserver.HashTable.Calls.{Call, look, add, delete, write, calls, map_calls, calls-Represents}
use pserver.HashTable.Contents.{WellFormed, Contents, put, remove, contents_laws}

-- Calls on a table of four buckets, with an index that comes twice.
abbrev steps : List (Call ℕ)
steps = add 5 7 ∷ add 9 8 ∷ add 5 6 ∷ look 5 ∷ write 9 4 ∷ delete 5 ∷ look 5 ∷ look 9 ∷ []

calls-Represents_example : calls steps (HashTable.with_buckets 4) ≡ map_calls steps (λ i. none)
calls-Represents_example =
    calls-Represents steps (HashTable.with_buckets 4) (λ i. none)
      (record { valid = with_buckets-IsValid 4; same = find-with_buckets 4 })

-- a table that holds 8 at 7
abbrev full : WellFormed ℕ
full = (
  HashTable.insert 7 8 (HashTable.with_buckets 4),
  insert-IsValid 7 (HashTable.with_buckets 4) (with_buckets-IsValid 4) 8,
)

contents_laws_example :
    let c : Contents ℕ = Quot.mk full in
    (put 9 3 (put 7 4 c) ≡ put 7 4 (put 9 3 c))
    × (remove 9 (put 7 4 c) ≡ put 7 4 (remove 9 c))
    × (put 9 3 (put 9 4 c) ≡ put 9 4 c)
    × (remove 9 (put 9 3 c) ≡ remove 9 c)
contents_laws_example = contents_laws 9 7 3 4 (Quot.mk full) (λ e. absurd (omega arith))
