-- ===== src/Db/Query.antt =====
-- db.cpp: the statements on one connection, and db_manager.cpp, which uses them.
use pserver.Prelude.{
  ℕ, zero, suc, ◌<◌, ◌≡◌, ◌∙◌, Bool, true, false, List, ◌∷◌, Option, none, some, arith,
  if◌then◌else◌, ◌>>=◌,
}
use pserver.Db.{Text, NextResult, next_failed, Mysql, Db, Pool, get_db_connection, release}

module _ {W : Type 0} (mysql : Mysql W) where
  -- `do { free } while (mysql_next_result(…) > 0)`: the inner `none` is a loop out of fuel
  unfoldable pub free_loop : ℕ → ℕ → ℕ → W → Option (Option W)
  free_loop zero handle result w = some none
  free_loop (suc fuel) handle result w = do
    w1 ← mysql.free_result result w
    let answer = mysql.next_result handle w1
    let again = free_loop fuel handle result answer.1
    elim answer.0 [ next_failed ↦ again | _ ↦ some (some answer.1) ]

  -- `DB::ClearResult`
  unfoldable pub clear_result : ℕ → Db → W → Option (Option (Db × W))
  unfolding free_loop
  clear_result fuel db w = elim db.result [
    | none ↦ some (some (db, w))
    | some r ↦ do
      out ← free_loop fuel db.mysql r w
      elim out [ none ↦ some none | some w' ↦ some (some (record db { result = none }, w')) ]
  ]

  -- `DB::Query`
  unfoldable pub query : ℕ → Text → Db → W → Option (Option (Db × W × Bool))
  unfolding clear_result
  query fuel sql db w = do
    out ← clear_result fuel db w
    elim out [
      | none ↦ some none
      | some (db1, w1) ↦
          let (done, w2) = mysql.query db1.mysql sql w1 in
          if done
          then (let (result, w3) = mysql.store_result db1.mysql w2 in
              some (some (record db1 { result = result }, w3, true)))
          else some (some (db1, w2, false))
    ]

  -- `DB::GetRow`
  unfoldable pub get_row : Db → W → W × Option (List Text)
  get_row db w = elim db.result [
    | none ↦ (w, none)
    | some r ↦ let (row, w') = mysql.fetch_row r w in (w', row)
  ]

  -- `DB::GetRowNum` reads through the result without a test
  unfoldable pub get_row_num : Db → W → Option ℕ
  get_row_num db w = elim db.result [ none ↦ none | some r ↦ some (mysql.num_rows r w) ]

  unfoldable pub get_insert_id : Db → W → ℕ
  get_insert_id db w = mysql.insert_id db.mysql w

  -- What the client library does with results: one that is there can be freed once, and no call but
  -- `store_result` makes one.
  pub record FreeLaws (live : ℕ → W → Bool) : Type 0 where
    pub free_live :
        (r : ℕ) (w : W)
        → live r w ≡ true
        → (w' : W) × (mysql.free_result r w ≡ some w') × (live r w' ≡ false)
    pub free_dead : (r : ℕ) (w : W) → live r w ≡ false → mysql.free_result r w ≡ none
    pub next_live : (r h : ℕ) (w : W) → live r (mysql.next_result h w).1 ≡ live r w

  -- What is left once the result is freed and the next one was asked for.
  abbrev pub cleared : Db → NextResult × W → Option (Option (Db × W))
  cleared db (next_failed, w) = none
  cleared db (_, w) = some (some (record db { result = none }, w))

  -- `ClearResult` on a stored result, with two rounds of fuel or more and a client library that can
  -- free a result once: where `mysql_next_result` reports no error the result is freed once and
  -- forgotten, and where it reports one the same result is freed a second time, which is a fault.
  pub clear_result_lem :
      (live : ℕ → W → Bool)
      → FreeLaws live
      → (fuel : ℕ) (db : Db) (w : W) (r : ℕ) → 1 < fuel
      → db.result ≡ some r
      → live r w ≡ true
      → (w1 : W) × (mysql.free_result r w ≡ some w1)
        × (clear_result fuel db w ≡ cleared db (mysql.next_result db.mysql w1))
  unfolding clear_result free_loop
  clear_result_lem live laws zero db w r f e l = absurd (omega arith)
  clear_result_lem live laws (suc zero) db w r f e l = absurd (omega arith)
  clear_result_lem live laws (suc (suc fuel)) db w r f e l =
      let (w1, freed, dead) = laws.free_live r w l in
      let again =
        laws.free_dead r (mysql.next_result db.mysql w1).1 (laws.next_live r db.mysql w1 ∙ dead) in
      (w1, freed, ground arith)

  -- `DbManager::Test`: what it writes to `name`; the connection goes back at the end. `row[1]` of a
  -- shorter row is a fault.
  abbrev second : List Text → Option Text
  second (a ∷ b ∷ rest) = some b
  second _ = none

  unfoldable pub test : ℕ → Text → Text → Pool W → Option (Option (Pool W × Text))
  unfolding query
  test fuel sql name p =
      let (p1, held) = get_db_connection mysql none p in
      elim held [
        | none ↦ some (some (p1, name))
        | some db ↦ do
          out ← query fuel sql db p1.world
          elim out [
            | none ↦ some none
            | some (db1, w, done) ↦
                let (w1, row) = get_row db1 w in
                elim (if done then row else none) [
                  | none ↦ some (
                      some
                        (release (some db1) (record p1 { world = if done then w1 else w }), name))
                  | some texts ↦ do
                    name' ← second texts
                    some (some (release (some db1) (record p1 { world = w1 }), name'))
                ]
          ]
      ]
