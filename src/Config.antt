-- ===== src/Config.antt =====
-- config.h and config.cpp: `Config`, what the program reads from config.lua, and the first connection.
pub mod Keys
use pserver.Prelude.{
  ℕ, zero, suc, ◌+◌, ◌-◌, ◌*◌, ◌/◌, ◌%◌, ◌^◌, ◌≤◌, ◌<◌, ◌≡◌, refl, sym, ap, subst, ◌∙◌, ◌≢◌, ◌⊎◌,
  inl, inr, Bool, true, false, not, ◌&&◌, ◌||◌, List, [], ◌∷◌, ◌++◌, map, append_assoc, append-nil,
  Option, none, some, arith, leb, ltb, ◌==◌, ==_iff, if◌then◌else◌, Bool-cases, lt→ltb, not-ltb,
  ==_refl, ==_ne, Option-cases, length, get_elem?, get_or, set, count_if, take, drop, replicate,
  All, get_elem?-none, get_or-set_ne, length-append, length-set, length-take, length-drop,
  length-replicate, ◌>>=◌, ◌>>◌, Returns,
}
use pserver.Lua.{Text, Lua, Entry, get_val, get_val_list}
use pserver.Lua.Laws.{walk, get_val_list_lem}
use pserver.Config.Keys
use pserver.Db
use pserver.Db.{Configure, Db, Mysql, Pool, get_instance, set_configure, get_db_connection, release}

-- `Config`, with `DBConfig`
pub record Config : Type 0 where
  pub qu : ℕ
  pub db : Configure
  pub port : Text
  pub client_version : ℕ
  pub script_path : Text
  pub log_path : Text

-- `atoi` is the C library's; `c` is the configuration as it was before.
module _ {V : Type 0} (lua : Lua V) (atoi : Text → ℕ) where
  -- one `GetVal(db.…, 3, "db", quStr, …)`; what it logs is left out
  abbrev pub db_field : Text → Text → Text → Option Text
  db_field zone key old = do
    (value, entries) ← get_val_list lua 3 (Keys.db ∷ zone ∷ key ∷ []) old
    some value

  unfoldable pub load : Config → Option (Config × Bool)
  load c = do
    let zone = get_val lua Keys.qu []
    user ← db_field zone Keys.user c.db.user
    pass ← db_field zone Keys.pass c.db.pass
    host ← db_field zone Keys.host c.db.host
    port ← db_field zone Keys.port c.db.port
    database ← db_field zone Keys.database c.db.database
    charset ← db_field zone Keys.charset c.db.charset
    some (
      record {
        qu = atoi zone;
        db = record {
          user = user;
          pass = pass;
          host = host;
          port = port;
          database = database;
          charset = charset;
        };
        port = get_val lua Keys.port c.port;
        client_version = atoi (get_val lua Keys.client_version []);
        script_path = get_val lua Keys.script_path c.script_path;
        log_path = get_val lua Keys.log_path c.log_path;
      },
      true,
    )

  -- The table `db` has a table for the zone, and that has the strings that `v` names.
  abbrev pub HasZone : (Text → V) → Text → Type 0
  HasZone v zone =
      All
        (λ key.
          (walk lua (lua.global Keys.db) (zone ∷ key ∷ []) ≡ some (v key))
          × (lua.is_string (v key) ≡ true))
        (Keys.user ∷ Keys.pass ∷ Keys.host ∷ Keys.port ∷ Keys.database ∷ Keys.charset ∷ [])

  db_field_lem :
      (v : Text → V) (zone key old : Text)
      → (walk lua (lua.global Keys.db) (zone ∷ key ∷ []) ≡ some (v key))
        × (lua.is_string (v key) ≡ true)
      → db_field zone key old ≡ some (lua.to_string (v key))
  db_field_lem v zone key old (e, s) =
      rw (get_val_list_lem lua Keys.db (zone ∷ key ∷ []) old (v key) (omega arith) e s) refl

  -- The connection that the strings of a zone describe.
  abbrev pub zone_db : (Text → V) → Configure
  zone_db v = record {
    user = lua.to_string (v Keys.user);
    pass = lua.to_string (v Keys.pass);
    host = lua.to_string (v Keys.host);
    port = lua.to_string (v Keys.port);
    database = lua.to_string (v Keys.database);
    charset = lua.to_string (v Keys.charset);
  }

  -- Where config.lua names a zone and has a table of six strings for it, `load` succeeds, the
  -- connection is that of the zone whatever it was before, the port and the two paths are the global
  -- strings, or what they were where there is no such string, and the number of the zone and the
  -- client version are `atoi` of their global strings, for the client version of the empty text where
  -- there is none.
  pub load_lem :
      (c : Config) (v : Text → V)
      → HasZone v (get_val lua Keys.qu [])
      → load c
        ≡ some (
          record {
            qu = atoi (get_val lua Keys.qu []);
            db = zone_db v;
            port = get_val lua Keys.port c.port;
            client_version = atoi (get_val lua Keys.client_version []);
            script_path = get_val lua Keys.script_path c.script_path;
            log_path = get_val lua Keys.log_path c.log_path;
          },
          true,
        )
  unfolding load
  load_lem c v (u, (p, (h, (o, (d, (s, _)))))) =
      let zone = get_val lua Keys.qu [] in
      rw
        (
          db_field_lem v zone Keys.user c.db.user u,
          db_field_lem v zone Keys.pass c.db.pass p,
          db_field_lem v zone Keys.host c.db.host h,
          db_field_lem v zone Keys.port c.db.port o,
          db_field_lem v zone Keys.database c.db.database d,
          db_field_lem v zone Keys.charset c.db.charset s,
        )
        refl

-- `Config::initDb`: the object that held the connection gives it back at the end
module _ {W : Type 0} (mysql : Mysql W) where
  unfoldable pub init_db : Configure → Pool W → Pool W × Bool
  init_db c p =
      let (p', held) = get_db_connection mysql none (set_configure c (get_instance p)) in
      elim held [ none ↦ (p', false) | some db ↦ (release (some db) p', true) ]

  -- Before any connection is there, `initDb` makes one with the given settings. It succeeds exactly
  -- when that connection opens, and then leaves it in the pool for the next user; otherwise the
  -- connection is closed and the pool stays empty. The pool has the settings in both cases.
  pub init_db_lem :
      (c : Configure) (p : Pool W)
      → p.pool_data ≡ none
      → let (db, w1) = Db.new_db mysql p.world in
        let (opened, w2) = Db.connect mysql db c w1 in
        init_db c p ≡ (
          record {
            pool_data = some (record { stack = if opened then db ∷ [] else []; configure = c });
            world = if opened then w2 else mysql.close db.mysql w2;
          },
          opened,
        )
  unfolding init_db get_instance set_configure get_db_connection Db.take_connection
      Db.pop_connection Db.push_connection Db.add_connection release
  init_db_lem c p e = rw (e, init_db) (ground arith)
