-- ===== src/Mgmt/Config/Examples.antt =====
-- A first and a second start of mgmt/config/config.go. What stands in a file is what json reads of
-- it.
use text.Mathlib.Text.{◌==◌ as str_eq}
use Prim.Native.String.{String}
use wgservermgr.Prelude.{◌≡◌, refl, Bool, true, false, Option, none, some, subst}
use wgservermgr.Prelude.Int.{pos}
use wgservermgr.Mgmt.Config.{
  FileConfig, Config, File, contents, missing, ConfigPackages, Calls, is_empty, enabled_from,
  default_server_ip, save_file, load_or_create_file, number_setting, config_of, load, new_file,
}
use wgservermgr.Mgmt.Config.Again.{load-again}

abbrev packages : ConfigPackages (Option FileConfig)
packages = record {
  unmarshal = λ t. t;
  marshal = some;
  unmarshal-marshal = λ file. refl;
  parse_prefix = λ subnet. some (10, 8, 0);
  addr_string = λ a b c d. "10.8.0.1";
  atoi = λ s. some (pos 9000);
}

abbrev if_port : Bool → String
if_port true = "9000"
if_port false = ""

-- Whether a drawn secret is empty.
abbrev drawn_empty : Option String → Bool
drawn_empty none = true
drawn_empty (some secret) = is_empty secret

-- The environment sets the port of the API.
abbrev first : Calls (Option FileConfig)
first = record {
  env = λ key. if_port (str_eq key "API_PORT");
  secret = some "5ec2e7";
  write_ok = true;
  half_written = missing;
}

abbrev next : Calls (Option FileConfig)
next = record first { secret = none; write_ok = false }

abbrev made : File (Option FileConfig) × Option (Option Config)
made = load packages first "wg0" missing

abbrev settings : Option Config
settings = some (record {
  interface = "wg0";
  server_endpoint = "";
  server_public_key = "";
  server_ip = "10.8.0.1";
  subnet = "10.8.0.0/24";
  dns = "1.1.1.1";
  out_interface = "";
  listen_port = pos 51820;
  api_port = pos 9000;
  api_key = "5ec2e7";
  db_path = "wireguard-wg0.db";
  keepalive_interval = pos 25;
  session_idle_seconds = pos 180;
  log_level = "verbose";
  config_path = "config.json";
})

load-run : made.1 ≡ some settings
unfolding load load_or_create_file save_file default_server_ip config_of number_setting enabled_from
load-run = refl

-- The second start needs no secret and writes nothing.
load-again_example :
    load packages next "wg0" (contents (some (new_file packages "wg0" "5ec2e7" "10.8.0.1")))
    ≡ (contents (some (new_file packages "wg0" "5ec2e7" "10.8.0.1")), some settings)
unfolding load load_or_create_file save_file default_server_ip config_of number_setting enabled_from
load-again_example =
    load-again packages first next "wg0" missing
      (contents (some (new_file packages "wg0" "5ec2e7" "10.8.0.1"))) settings
      (λ secret e. subst (λ o. drawn_empty o ≡ false) e refl) refl refl
