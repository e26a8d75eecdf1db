-- ===== src/Config/Keys.antt =====
-- config.cpp: the names that `Config::load` looks up in config.lua.
use pserver.Prelude.{[], ◌∷◌}
use pserver.Lua.{Text}

abbrev pub qu : Text
qu = b'q' ∷ b'u' ∷ []

abbrev pub db : Text
db = b'd' ∷ b'b' ∷ []

abbrev pub user : Text
user = b'u' ∷ b's' ∷ b'e' ∷ b'r' ∷ []

abbrev pub pass : Text
pass = b'p' ∷ b'a' ∷ b's' ∷ b's' ∷ []

abbrev pub host : Text
host = b'h' ∷ b'o' ∷ b's' ∷ b't' ∷ []

abbrev pub port : Text
port = b'p' ∷ b'o' ∷ b'r' ∷ b't' ∷ []

abbrev pub database : Text
database = b'd' ∷ b'a' ∷ b't' ∷ b'a' ∷ b'b' ∷ b'a' ∷ b's' ∷ b'e' ∷ []

abbrev pub charset : Text
charset = b'c' ∷ b'h' ∷ b'a' ∷ b'r' ∷ b's' ∷ b'e' ∷ b't' ∷ []

abbrev pub client_version : Text
client_version =
    b'c' ∷ b'l' ∷ b'i' ∷ b'e' ∷ b'n' ∷ b't' ∷ b'V' ∷ b'e' ∷ b'r' ∷ b's' ∷ b'i' ∷ b'o' ∷ b'n' ∷ []

abbrev pub script_path : Text
script_path = b's' ∷ b'c' ∷ b'r' ∷ b'i' ∷ b'p' ∷ b't' ∷ b'P' ∷ b'a' ∷ b't' ∷ b'h' ∷ []

abbrev pub log_path : Text
log_path = b'l' ∷ b'o' ∷ b'g' ∷ b'P' ∷ b'a' ∷ b't' ∷ b'h' ∷ []
