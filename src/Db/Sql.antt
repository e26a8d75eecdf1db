-- ===== src/Db/Sql.antt =====
-- sql_manager.h, sql_manager.cpp and db_manager.cpp: the statements by number, and `DbManager`.
use pserver.Prelude.{
  ℕ, zero, suc, ◌^◌, refl, inl, inr, Bool, true, false, ◌||◌, List, [], ◌∷◌, Option, none, some,
  arith, leb, if◌then◌else◌, Bool-cases, get_elem?, ◌>>=◌, Returns,
}
use pserver.Db.{Text, Configure, Mysql, Db, Pool, get_instance, set_configure}
use pserver.Db.Query.{clear_result, test}

-- `SQL_TEST` and `SQL_MAX`
abbrev pub sql_test : ℕ
sql_test = 0

abbrev pub sql_max : ℕ
sql_max = 1

-- `SqlManager()`
unfoldable pub sqls : List Text
sqls =
    (b's' ∷ b'e' ∷ b'l' ∷ b'e' ∷ b'c' ∷ b't' ∷ b' ' ∷ b'i' ∷ b'd' ∷ b',' ∷ b'n' ∷ b'a' ∷ b'm' ∷ b'e'
      ∷ b' ' ∷ b'f' ∷ b'r' ∷ b'o' ∷ b'm' ∷ b' ' ∷ b'r' ∷ b'o' ∷ b'l' ∷ b'e' ∷ b'_' ∷ b'i' ∷ b'n'
      ∷ b'f' ∷ b'o' ∷ b' ' ∷ b'w' ∷ b'h' ∷ b'e' ∷ b'r' ∷ b'e' ∷ b' ' ∷ b'i' ∷ b'd' ∷ b' ' ∷ b'='
      ∷ b' ' ∷ b'%' ∷ b'1' ∷ b'%' ∷ b';' ∷ [])
    ∷ []

-- `Sql`, with whether it logs an error; an index is the 32-bit pattern of the enumeration
unfoldable pub sql : ℕ → Option Text × Bool
unfolding sqls
sql idx =
    if leb (2 ^ 31) idx || leb sql_max idx then (some [], true) else (get_elem? sqls idx, false)

-- No index reads past the array.
pub sql-inside : (idx : ℕ) → Returns (sql idx).0 λ _. Unit {0}
unfolding sql sqls
sql-inside zero = (_, refl, tt)
sql-inside (suc idx) = elim (Bool-cases (leb (2 ^ 31) (suc idx) || leb 1 (suc idx))) [
  | inl out ↦ ([], rw out refl, tt)
  | inr within ↦ absurd (ground (arith, within))
]

-- `DbManager()`
abbrev pub test_configure : Configure
test_configure = record {
  user = b'r' ∷ b'o' ∷ b'o' ∷ b't' ∷ [];
  pass = [];
  host =
      b'1' ∷ b'9' ∷ b'2' ∷ b'.' ∷ b'1' ∷ b'6' ∷ b'8' ∷ b'.' ∷ b'0' ∷ b'.' ∷ b'1' ∷ b'8' ∷ b'3' ∷ [];
  port = b'3' ∷ b'3' ∷ b'0' ∷ b'6' ∷ [];
  database = b'k' ∷ b'u' ∷ b'a' ∷ b'f' ∷ b'u' ∷ [];
  charset = b'g' ∷ b'b' ∷ b'k' ∷ [];
}

unfoldable pub new_manager : {W : Type 0} → Pool W → Pool W
new_manager p = set_configure test_configure (get_instance p)

module _ {W : Type 0} (mysql : Mysql W) where
  -- `Test` with the statement of an id; `format` is `%` of `boost::format`
  unfoldable pub test_id :
      (Text → ℕ → Text) → ℕ → ℕ → Text → Pool W → Option (Option (Pool W × Text))
  unfolding sql
  test_id format fuel id name p = do
    statement ← (sql sql_test).0
    test mysql fuel (format statement id) name p

  -- `DB::~DB`; the inner `none` is a loop out of fuel
  unfoldable pub destroy_db : ℕ → Db → W → Option (Option W)
  destroy_db fuel db w = do
    out ← clear_result mysql fuel db w
    elim out [ none ↦ some none | some (db', w') ↦ some (some (mysql.close db'.mysql w')) ]

-- `DbPool::~DbPool`: the connections of the pool are not closed
unfoldable pub destroy_pool : {W : Type 0} → Pool W → Pool W
destroy_pool p = record p { pool_data = none }
