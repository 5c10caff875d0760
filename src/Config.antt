-- ===== src/Config.antt =====
-- utils/config.rs: the configuration, and the one that is used without a file.
use minifto.Common.{ℕ, Bool, true, false, Option, none, some, List, [], ◌∷◌, Bytes, codes}
use minifto.Common.Int.{ℤ, negsuc}

pub record Config : Type 0 where
  pub server_addr : Bytes
  pub server_port : ℕ
  pub pasv_enable : Bool
  pub pasv_port : List ℕ
  pub max_clients : ℕ
  pub max_speed : ℤ
  pub ssl_enable : Bool
  pub rsa_cert_file : Option Bytes
  pub rsa_private_key_file : Option Bytes
  pub admin : Option Bytes
  pub users : List (Bytes × Bytes)

-- The configuration of `Config::new` where no file can be read.
abbrev pub default_config : Config
default_config = record {
  server_addr = codes "0.0.0.0";
  server_port = 8089;
  pasv_enable = true;
  pasv_port = 2222 ∷ 2222 ∷ [];
  max_clients = 0;
  max_speed = negsuc 0;
  ssl_enable = false;
  rsa_cert_file = none;
  rsa_private_key_file = none;
  admin = some [];
  users = (codes "anonymous", []) ∷ [];
}
