-- ===== src/Db.antt =====
-- db.h and db.cpp: one connection (`DB`), the connection a function holds (`DbConnection`) and the
-- pool (`DbPoolData`, `DbPool`). The client library of MySQL is the parameter `Mysql`; texts are lists
-- of bytes. `none` is undefined behaviour.
pub mod Query
pub mod Sharing
pub mod Sql
use pserver.Prelude.{
  ℕ, zero, suc, ◌+◌, ◌-◌, ◌*◌, ◌/◌, ◌%◌, ◌^◌, ◌≤◌, ◌<◌, ◌≡◌, refl, sym, ap, subst, ◌∙◌, ◌≢◌, ◌⊎◌,
  inl, inr, Bool, true, false, not, ◌&&◌, ◌||◌, List, [], ◌∷◌, ◌++◌, map, append_assoc, append-nil,
  Option, none, some, arith, leb, ltb, ◌==◌, ==_iff, if◌then◌else◌, Bool-cases, lt→ltb, not-ltb,
  ==_refl, ==_ne, Option-cases, length, get_or, set, count_if, take, drop, replicate, All,
  length-append, length-set, length-take, length-drop, length-replicate, ◌>>=◌, ◌>>◌, Returns,
}

abbrev pub Text : Type 0
Text = List ℕ

-- The fields that `SetConfigure` copies.
pub record Configure : Type 0 where
  pub user : Text
  pub pass : Text
  pub host : Text
  pub port : Text
  pub database : Text
  pub charset : Text

-- What `mysql_next_result` returns: 0, -1, or an error above 0.
pub data NextResult : Type 0 where
  more_results no_more next_failed : NextResult

-- The options that `Connect` sets.
pub data Setting : Type 0 where
  connect_timeout read_timeout : ℕ → Setting
  reconnect : Bool → Setting

abbrev db_conn_timeout : ℕ
db_conn_timeout = 5

abbrev db_recv_timeout : ℕ
db_recv_timeout = 5

-- The calls of the client library over its state; a handle is a number. `free_result` is `none` where
-- the result is not there to be freed.
pub record Mysql (W : Type 0) : Type 0 where
  pub init : W → ℕ × W
  pub options : ℕ → Setting → W → W
  pub real_connect : ℕ → Configure → W → Bool × W
  pub select_db : ℕ → Text → W → Bool × W
  pub set_character_set : ℕ → Text → W → Bool × W
  pub close : ℕ → W → W
  pub query : ℕ → Text → W → Bool × W
  pub store_result : ℕ → W → Option ℕ × W
  pub free_result : ℕ → W → Option W
  pub next_result : ℕ → W → NextResult × W
  pub fetch_row : ℕ → W → Option (List Text) × W
  pub num_rows : ℕ → W → ℕ
  pub insert_id : ℕ → W → ℕ
  pub error : ℕ → W → Text

-- `DB`
pub record Db : Type 0 where
  pub mysql : ℕ
  pub result : Option ℕ

-- `DbPoolData`; the top of the stack is the head of the list
pub record PoolData : Type 0 where
  pub stack : List Db
  pub configure : Configure

-- `m_pData`, null until the first `GetInstance`, and the rest of the world
pub record Pool (W : Type 0) : Type 0 where
  pub pool_data : Option PoolData
  pub world : W

abbrev pub no_configure : Configure
no_configure = record { user = []; pass = []; host = []; port = []; database = []; charset = [] }

-- `DbPool::DbPool`
unfoldable pub new_pool : {W : Type 0} → Pool W → Pool W
new_pool p = elim p.pool_data [
  | none ↦ record p { pool_data = some (record { stack = []; configure = no_configure }) }
  | some d ↦ p
]

-- `DbPool::GetInstance`
unfoldable pub get_instance : {W : Type 0} → Pool W → Pool W
unfolding new_pool
get_instance p = elim p.pool_data [ none ↦ new_pool p | some d ↦ p ]

unfoldable pub set_configure : {W : Type 0} → Configure → Pool W → Pool W
set_configure c p = elim p.pool_data [
  | none ↦ p
  | some d ↦ record p { pool_data = some (record d { configure = c }) }
]

unfoldable pub pop_connection : PoolData → PoolData × Option Db
pop_connection d = elim d.stack [
  | [] ↦ (d, none)
  | db ∷ rest ↦ (record d { stack = rest }, some db)
]

unfoldable pub push_connection : Db → PoolData → PoolData
push_connection db d = record d { stack = db ∷ d.stack }

module _ {W : Type 0} where
  -- the first try of `GetDbConnection`, and the second after `AddConnection`
  unfoldable pub take_connection : Pool W → Pool W × Option Db
  take_connection p = elim p.pool_data [
    | none ↦ (p, none)
    | some d ↦ let (d', db) = pop_connection d in (record p { pool_data = some d' }, db)
  ]

  -- `DbConnection::~DbConnection`
  unfoldable pub release : Option Db → Pool W → Pool W
  release none p = p
  release (some db) p = elim p.pool_data [
    | none ↦ p
    | some d ↦ record p { pool_data = some (push_connection db d) }
  ]

module _ {W : Type 0} (mysql : Mysql W) where
  -- `DB::DB`
  unfoldable pub new_db : W → Db × W
  new_db w = let (handle, w') = mysql.init w in (record { mysql = handle; result = none }, w')

  -- `DB::Connect`; `atoi` of the port is part of `real_connect`
  unfoldable pub connect : Db → Configure → W → Bool × W
  connect db c w =
      let set = λ (o : Setting) (w : W). mysql.options db.mysql o w in
      let ready =
        set (reconnect true)
          (set (read_timeout db_recv_timeout) (set (connect_timeout db_conn_timeout) w)) in
      let (opened, w1) = mysql.real_connect db.mysql c ready in
      if not opened
      then (false, w1)
      else (let (selected, w2) = mysql.select_db db.mysql c.database w1 in
          if not selected then (false, w2) else mysql.set_character_set db.mysql c.charset w2)

  unfoldable pub get_error : Db → W → Text
  get_error db w = mysql.error db.mysql w

  -- `DbPool::AddConnection`; a connection that fails is closed
  unfoldable pub add_connection : Pool W → Pool W × Bool
  unfolding new_db connect
  add_connection p = elim p.pool_data [
    | none ↦ (p, false)
    | some d ↦
        let (db, w1) = new_db p.world in
        let (done, w2) = connect db d.configure w1 in
        if done
        then (record { pool_data = some (push_connection db d); world = w2 }, true)
        else (record p { world = mysql.close db.mysql w2 }, false)
  ]

  -- `DbConnection::GetDbConnection`, on an object that holds `held`
  unfoldable pub get_db_connection : Option Db → Pool W → Pool W × Option Db
  get_db_connection held p = elim p.pool_data [
    | none ↦ (p, none)
    | some d ↦ elim held [
      | some db ↦ (p, some db)
      | none ↦
          let (p1, first) = take_connection p in
          elim first [ some db ↦ (p1, some db) | none ↦ take_connection (add_connection p1).0 ]
    ]
  ]
