-- ===== src/Db/Config.antt =====
-- internal/db/config.go, and the DSN of internal/db/database.go.
use cribe.Prelude.{
  Bool, false, Option, none, some, List, [], ◌∷◌, ◌++◌, ◌==◌, ◌||◌, not, nat_eq, ltb, if◌then◌else◌,
  String, ◌<>◌, ◌≡◌, refl,
}
use cribe.Prelude.Decimal.{ℤ, pos, negsuc, itoa}
use cribe.Exec.{Exec, annotate, is_ok, ◌>>=◌}

pub record DbConfig : Type 0 where
  pub name : String
  pub user : String
  pub host : String
  pub port : ℤ
  pub ssl_mode : String
  pub conn_timeout : ℤ
  pub password : String
  pub pool_min_conns : ℤ
  pub pool_max_conns : ℤ

-- pgxDSN
unfoldable pub pgx_dsn : DbConfig → String
pgx_dsn cfg =
    "dbname="
    <> (cfg.name
        <> (" user="
            <> (cfg.user
                <> (" password="
                    <> (cfg.password
                        <> (" host="
                            <> (cfg.host
                                <> (" port="
                                    <> (itoa cfg.port
                                        <> (" sslmode="
                                            <> (cfg.ssl_mode
                                                <> (" connect_timeout="
                                                    <> (itoa cfg.conn_timeout
                                                        <> (" pool_min_conns="
                                                            <> (itoa cfg.pool_min_conns
                                                            <> (" pool_max_conns="
                                                            <> (itoa cfg.pool_max_conns
                                                            <> " ")))))))))))))))))

-- What the program calls of pgxpool. `P` is the type of a parsed configuration and `D` that of a
-- pool; a pool pings a connection by the function that it is given before it hands it out.
pub record PoolLibrary (P D S : Type 0) : Type 0 where
  pub parse_config : String → Exec S P
  pub connect_config : P → (Exec S (Unit {0}) → S → Bool × S) → Exec S D
  pub close_pool : D → S → S

module _ {P D S : Type 0} (pgxpool : PoolLibrary P D S) where
  -- The function `BeforeAcquire`, of the ping of a connection.
  abbrev before_acquire : Exec S (Unit {0}) → S → Bool × S
  before_acquire ping s = let (r, t) = ping s in (is_ok r, t)

  unfoldable pub new_from_env : DbConfig → Exec S D
  unfolding pgx_dsn
  new_from_env cfg = do
    pgx_config ← annotate "parse DSN" (pgxpool.parse_config (pgx_dsn cfg))
    annotate "create connection pool" (pgxpool.connect_config pgx_config before_acquire)

  -- New, in the background context
  abbrev pub new : DbConfig → Exec S D
  unfolding new_from_env
  new cfg = new_from_env cfg

  abbrev pub close : D → S → S
  close db = pgxpool.close_pool db

-- url.URL, as far as it is filled in: its user is a name and a password.
pub record Url : Type 0 where
  pub scheme : String
  pub user : Option (String × String)
  pub host : String
  pub path : String
  pub raw_query : String

abbrev is_zero : ℤ → Bool
is_zero (pos n) = nat_eq n 0
is_zero (negsuc n) = false

abbrev is_positive : ℤ → Bool
is_positive (pos n) = ltb 0 n
is_positive (negsuc n) = false

-- ConnectionURL, up to the printing of the URL; `encode` is `url.Values.Encode`.
unfoldable pub connection_url : (List (String × String) → String) → DbConfig → Url
connection_url encode cfg = record {
  scheme = "postgres";
  user =
      if not (cfg.user == "") || not (cfg.password == "")
      then some (cfg.user, cfg.password)
      else none;
  host = if is_zero cfg.port then cfg.host else cfg.host <> (":" <> itoa cfg.port);
  path = cfg.name;
  raw_query = encode (
      (if is_positive cfg.conn_timeout then ("connect_timeout", itoa cfg.conn_timeout) ∷ [] else [])
      ++ (if cfg.ssl_mode == "" then [] else ("sslmode", cfg.ssl_mode) ∷ []));
}

-- The defaults of the environment.
abbrev default_config : DbConfig
default_config = record {
  name = "cribe";
  user = "postgres";
  host = "localhost";
  port = pos 5430;
  ssl_mode = "disable";
  conn_timeout = pos 5;
  password = "postgres";
  pool_min_conns = pos 10;
  pool_max_conns = pos 50;
}

pgx_dsn_default :
    pgx_dsn default_config
    ≡ "dbname=cribe user=postgres password=postgres host=localhost port=5430 sslmode=disable connect_timeout=5 pool_min_conns=10 pool_max_conns=50 "
unfolding pgx_dsn itoa
pgx_dsn_default = refl

abbrev port_only : DbConfig
port_only = record default_config { user = ""; password = ""; port = pos 0; ssl_mode = "" }

abbrev first_key : List (String × String) → String
first_key [] = ""
first_key ((k, v) ∷ q) = k

connection_url_test : connection_url first_key port_only ≡ record {
  scheme = "postgres";
  user = none;
  host = "localhost";
  path = "cribe";
  raw_query = "connect_timeout";
}
unfolding connection_url
connection_url_test = refl
