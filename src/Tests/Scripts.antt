-- ===== src/Tests/Scripts.antt =====
-- Scripts and the configuration: the theorems about the Lua state on concrete values.
use pserver.Prelude.{
  ℕ, ◌+◌, ◌≡◌, refl, Bool, true, false, not, List, [], ◌∷◌, ◌++◌, none, some, arith, leb, ◌==◌,
  if◌then◌else◌, length, replicate,
}
use mathlib.Core.List.{flatten}
use pserver.Lua.{Text, Lua, not_table, get_val, get_val_list}
use pserver.Lua.Laws.{walk, get_val_list_lem, get_val_list_lost}
use pserver.Lua.Call.{number, string, pointer, letter}
use pserver.Lua.Results.{Script, call, call_lem, call-separator}
use pserver.Config.{Config, load, zone_db, load_lem, init_db, init_db_lem}
use pserver.Config.Keys
use pserver.Db
use pserver.Tests.Services.{client, pool}

-- A value is the path to it: `db` is a table of tables, and everything else is a string.
abbrev is_scalar : List Text → Bool
is_scalar ((c ∷ key) ∷ keys) = if c == b'd' then leb 2 (length keys) else true
is_scalar _ = true

abbrev paths : Lua (List Text)
paths = record {
  global = λ key. key ∷ [];
  is_string = is_scalar;
  is_table = λ v. not (is_scalar v);
  to_string = flatten;
  index = λ v key. some (v ++ key ∷ []);
}

abbrev zone : Text
zone = 49 ∷ []

get_val_list_lem_example :
    get_val_list paths 3 (Keys.db ∷ zone ∷ Keys.user ∷ []) []
    ≡ some (flatten (Keys.db ∷ zone ∷ Keys.user ∷ []), [])
get_val_list_lem_example =
    get_val_list_lem paths Keys.db (zone ∷ Keys.user ∷ []) [] (Keys.db ∷ zone ∷ Keys.user ∷ [])
      (omega arith) (unfold walk in refl) refl

get_val_list_lost_example :
    get_val_list paths 5 (Keys.db ∷ zone ∷ Keys.user ∷ Keys.user ∷ Keys.user ∷ []) zone
    ≡ some (zone, not_table [] ∷ [])
get_val_list_lost_example =
    get_val_list_lost paths Keys.db zone (Keys.user ∷ Keys.user ∷ Keys.user ∷ []) zone
      (Keys.db ∷ zone ∷ []) (Keys.db ∷ zone ∷ [] ∷ []) (omega arith) refl refl refl refl

-- Values that are numbers, and functions that have none or raise an error above two arguments.
abbrev script : Script ℕ ℕ
script = record {
  is_number = λ v. true;
  is_string = λ v. false;
  to_double = λ v. v;
  to_int = λ v. v;
  to_text = λ v. [];
  pcall = λ func args n w. (if leb (length args) 2 then some (replicate n 7) else none, w + 1);
}

call_lem_example :
    call script
      (λ c. true)
      zone
      (b'i' ∷ b's' ∷ b'u' ∷ [])
      ((number 7 ∷ string zone ∷ pointer 3 ∷ []) ++ [])
      4
    ≡ some (record { stored = []; errors = 1; world = 5 })
unfolding letter
call_lem_example =
    call_lem script (λ c. true) zone (b'i' ∷ b's' ∷ b'u' ∷ [])
      (number 7 ∷ string zone ∷ pointer 3 ∷ []) [] 4
      (refl, (λ _. refl), (refl, (λ _. refl), (refl, (λ _. refl), tt)))

call-separator_example :
    call script
      (λ c. true)
      zone
      ((b'i' ∷ []) ++ b'>' ∷ b'd' ∷ [])
      ((number 7 ∷ []) ++ pointer 3 ∷ [])
      4
    ≡ none
unfolding letter
call-separator_example =
    call-separator script (λ c. true) zone (b'i' ∷ []) (b'd' ∷ []) (number 7 ∷ []) (pointer 3 ∷ [])
      4 (refl, (λ _. refl), tt)

abbrev empty : Config
empty = record {
  qu = 0;
  db = Db.no_configure;
  port = [];
  client_version = 0;
  script_path = [];
  log_path = [];
}

abbrev strings : Text → List Text
strings key = Keys.db ∷ Keys.qu ∷ key ∷ []

load_lem_example :
    load paths length empty
    ≡ some (
      record {
        qu = length (get_val paths Keys.qu []);
        db = zone_db paths length strings;
        port = get_val paths Keys.port [];
        client_version = length (get_val paths Keys.client_version []);
        script_path = get_val paths Keys.script_path [];
        log_path = get_val paths Keys.log_path [];
      },
      true,
    )
unfolding get_val walk flatten
load_lem_example = load_lem paths length empty strings (
  (refl, refl),
  ((refl, refl), ((refl, refl), ((refl, refl), ((refl, refl), ((refl, refl), tt))))),
)

init_db_lem_example : init_db client Db.no_configure pool ≡ (
  record {
    pool_data =
        some (record {
          stack = record { mysql = 0; result = none } ∷ [];
          configure = Db.no_configure;
        });
    world = (1, []);
  },
  true,
)
unfolding Db.new_db Db.connect
init_db_lem_example = init_db_lem client Db.no_configure pool refl
