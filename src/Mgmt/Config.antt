-- ===== src/Mgmt/Config.antt =====
-- mgmt/config/config.go: the settings, from the environment, the file and the defaults. The state is
-- what stands at the path of the file. Packages json, netip and strconv are a parameter, errors are
-- none, and what is only printed is left out.
pub mod Again
pub mod Examples
use text.Mathlib.Text.{◌==◌ as str_eq}
use Prim.Native.String.{String}
use wgservermgr.Prelude.{ℕ, ◌≡◌, Bool, true, false, not, Option, none, some, if◌then◌else◌}
use wgservermgr.Prelude.Int.{ℤ, pos, eqb_ℤ}

pub record FileConfig : Type 0 where
  pub api_enabled : Option Bool
  pub api_port : ℤ
  pub secret_key : String
  pub listen_port : ℤ
  pub subnet : String
  pub server_ip : String
  pub server_endpoint : String
  pub server_public_key : String
  pub dns : String
  pub out_interface : String
  pub keepalive_interval : ℤ
  pub db_path : String
  pub log_level : String
  pub session_idle_seconds : ℤ

pub record Config : Type 0 where
  pub interface : String
  pub server_endpoint : String
  pub server_public_key : String
  pub server_ip : String
  pub subnet : String
  pub dns : String
  pub out_interface : String
  pub listen_port : ℤ
  pub api_port : ℤ
  pub api_key : String
  pub db_path : String
  pub keepalive_interval : ℤ
  pub session_idle_seconds : ℤ
  pub log_level : String
  pub config_path : String

-- `os.ReadFile`: the text of a file, of the type `T`, a file that does not exist, and another error.
pub data File (T : Type 0) : Type 0 where
  contents : T → File T
  missing unreadable : File T

pub record ConfigPackages (T : Type 0) : Type 0 where
  -- `json.Unmarshal`, and `json.MarshalIndent` with the newline after it. What is written is read
  -- back.
  pub unmarshal : T → Option FileConfig
  pub marshal : FileConfig → T
  pub unmarshal-marshal : (file : FileConfig) → unmarshal (marshal file) ≡ some file
  -- `netip.ParsePrefix` with the first three bytes of its address, and `AddrFrom4(…).String()`.
  pub parse_prefix : String → Option (ℕ × ℕ × ℕ)
  pub addr_string : ℕ → ℕ → ℕ → ℕ → String
  -- `strconv.Atoi`
  pub atoi : String → Option ℤ

-- What a call takes from outside: the environment, the random secret in hex if it can be read, whether
-- the file can be written, and what a failed write leaves.
pub record Calls (T : Type 0) : Type 0 where
  pub env : String → String
  pub secret : Option String
  pub write_ok : Bool
  pub half_written : File T

abbrev pub is_empty : String → Bool
is_empty s = str_eq s ""

-- `firstNonEmpty` of two values, and of three.
abbrev pub first_non_empty : String → String → String
first_non_empty a b = if not (is_empty a) then a else b

abbrev pub default_path : String
default_path = "config.json"

abbrev pub default_subnet : String
default_subnet = "10.8.0.0/24"

abbrev pub append : String → String → String
append String.[] t = t
append (String.◌∷◌ c s) t = String.◌∷◌ c (append s t)

abbrev pub default_db_path : String → String
default_db_path iface = append "wireguard-" (append iface ".db")

-- `if x == 0 { x = d }`
abbrev pub or_default : ℤ → ℤ → ℤ
or_default d x = if eqb_ℤ x (pos 0) then d else x

abbrev pub or_default_text : String → String → String
or_default_text d x = if is_empty x then d else x

-- `Enabled`
abbrev pub enabled : (String → String) → Bool
enabled env = if not (is_empty (env "WG_API")) then not (str_eq (env "WG_API") "0") else true

-- `enabledFrom`
unfoldable pub enabled_from : (String → String) → FileConfig → Bool
enabled_from env file =
    if not (is_empty (env "WG_API"))
    then not (str_eq (env "WG_API") "0")
    else elim file.api_enabled [ some enabled ↦ enabled | none ↦ true ]

module _ {T : Type 0} (p : ConfigPackages T) where
  -- `defaultServerIP`
  unfoldable pub default_server_ip : String → Option String
  default_server_ip subnet = elim (p.parse_prefix subnet) [
    | none ↦ none
    | some (a, b, c) ↦ some (p.addr_string a b c 1)
  ]

  abbrev pub default_ip_or : String → String → String
  default_ip_or subnet ip =
      if is_empty ip then elim (default_server_ip subnet) [ some found ↦ found | none ↦ ip ] else ip

  -- `applyFileDefaults`
  unfoldable pub apply_file_defaults : String → FileConfig → FileConfig
  apply_file_defaults iface file =
      let subnet = or_default_text default_subnet file.subnet in
      record file {
        api_port = or_default (pos 8080) file.api_port;
        listen_port = or_default (pos 51820) file.listen_port;
        subnet = subnet;
        server_ip = default_ip_or subnet file.server_ip;
        dns = or_default_text "1.1.1.1" file.dns;
        keepalive_interval = or_default (pos 25) file.keepalive_interval;
        db_path = or_default_text (default_db_path iface) file.db_path;
        session_idle_seconds = or_default (pos 180) file.session_idle_seconds;
      }

  -- `saveFile`, and the file as the result where it is saved.
  unfoldable pub save_file : Calls T → FileConfig → File T × Option FileConfig
  save_file calls file =
      if calls.write_ok then (contents (p.marshal file), some file) else (calls.half_written, none)

  -- The file that `loadOrCreateFile` makes.
  abbrev pub new_file : String → String → String → FileConfig
  new_file iface secret server_ip = record {
    api_enabled = some true;
    api_port = pos 8080;
    secret_key = secret;
    listen_port = pos 51820;
    subnet = default_subnet;
    server_ip = server_ip;
    server_endpoint = "";
    server_public_key = "";
    dns = "1.1.1.1";
    out_interface = "";
    keepalive_interval = pos 25;
    db_path = default_db_path iface;
    log_level = "verbose";
    session_idle_seconds = pos 180;
  }

  -- `loadOrCreateFile`
  unfoldable pub load_or_create_file : Calls T → String → File T → File T × Option FileConfig
  load_or_create_file calls iface (contents content) = elim (p.unmarshal content) [
    | none ↦ (contents content, none)
    | some file ↦
        if is_empty file.secret_key
        then elim calls.secret [
          | none ↦ (contents content, none)
          | some secret ↦
              save_file calls (apply_file_defaults iface (record file { secret_key = secret }))
        ]
        else (contents content, some (apply_file_defaults iface file))
  ]
  load_or_create_file calls iface missing = elim calls.secret [
    | none ↦ (missing, none)
    | some secret ↦ elim (default_server_ip default_subnet) [
      | none ↦ (missing, none)
      | some server_ip ↦ save_file calls (new_file iface secret server_ip)
    ]
  ]
  load_or_create_file calls iface unreadable = (unreadable, none)

  -- A number: the default, the file, and over them the environment.
  unfoldable pub number_setting : (String → String) → String → ℤ → ℤ → Option ℤ
  number_setting env key d x =
      if not (is_empty (env key)) then p.atoi (env key) else some (or_default d x)

  -- `Load` once the file is there: none inside for an API that is switched off.
  unfoldable pub config_of : (String → String) → String → FileConfig → Option (Option Config)
  config_of env iface file =
      let subnet = first_non_empty (env "WG_SUBNET") (first_non_empty file.subnet default_subnet) in
      let server_ip = first_non_empty (env "WG_SERVER_IP") file.server_ip in
      let server_ip' = if is_empty server_ip then default_server_ip subnet else some server_ip in
      if not (enabled_from env file) then some none else elim server_ip' [
        | none ↦ none
        | some ip ↦ elim (number_setting env "API_PORT" (pos 8080) file.api_port) [
          | none ↦ none
          | some api_port ↦
              elim (number_setting env "WG_LISTEN_PORT" (pos 51820) file.listen_port) [
                | none ↦ none
                | some listen_port ↦
                    elim (number_setting env "WG_KEEPALIVE_INTERVAL" (pos 25)
                      file.keepalive_interval) [
                        | none ↦ none
                        | some keepalive ↦
                            elim (number_setting env "WG_SESSION_IDLE_SECONDS" (pos 180)
                              file.session_idle_seconds) [
                                | none ↦ none
                                | some session_idle ↦ some (
                                    some (record {
                                      interface = iface;
                                      server_endpoint =
                                          first_non_empty (env "WG_SERVER_ENDPOINT")
                                            file.server_endpoint;
                                      server_public_key =
                                          first_non_empty (env "WG_SERVER_PUBLIC_KEY")
                                            file.server_public_key;
                                      server_ip = ip;
                                      subnet = subnet;
                                      dns =
                                          first_non_empty (env "WG_DNS")
                                            (first_non_empty file.dns "1.1.1.1");
                                      out_interface =
                                          first_non_empty (env "WG_OUT_INTERFACE")
                                            file.out_interface;
                                      listen_port = listen_port;
                                      api_port = api_port;
                                      api_key = first_non_empty (env "API_KEY") file.secret_key;
                                      db_path =
                                          first_non_empty (env "DB_PATH")
                                            (first_non_empty file.db_path (default_db_path iface));
                                      keepalive_interval = keepalive;
                                      session_idle_seconds = session_idle;
                                      log_level = first_non_empty (env "LOG_LEVEL") file.log_level;
                                      config_path = first_non_empty (env "WG_CONFIG") default_path;
                                    }))
                              ]
                      ]
              ]
        ]
      ]

  -- `Load`, on the file at its path.
  unfoldable pub load : Calls T → String → File T → File T × Option (Option Config)
  load calls iface disk =
      let (disk', file) = load_or_create_file calls iface disk in
      elim file [ none ↦ (disk', none) | some f ↦ (disk', config_of calls.env iface f) ]
