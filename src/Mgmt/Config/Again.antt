-- ===== src/Mgmt/Config/Again.antt =====
-- mgmt/config/config.go: what `Load` leaves on disk it reads again as the same settings.
use Prim.Native.String.{String}
use wgservermgr.Prelude.{
  ℕ, ◌≡◌, refl, sym, ap, ◌∙◌, false, Option, none, some, inl, inr, Bool-cases, Option-cases, subst,
}
use wgservermgr.Prelude.Int.{ℤ, pos, eqb_ℤ}
use wgservermgr.Mgmt.Config.{
  FileConfig, Config, File, contents, missing, unreadable, ConfigPackages, Calls, is_empty,
  default_subnet, default_db_path, or_default, or_default_text, default_server_ip, default_ip_or,
  apply_file_defaults, save_file, new_file, load_or_create_file, config_of, load,
}

or_default-twice :
    (n : ℕ) (x : ℤ) → or_default (pos n) (or_default (pos n) x) ≡ or_default (pos n) x
or_default-twice n x = elim (Bool-cases (eqb_ℤ x (pos 0))) [
  | inr e ↦ rw (e, e) refl
  | inl e ↦ elim (Bool-cases (eqb_ℤ (pos n) (pos 0))) [
    | inl f ↦ rw (e, f) refl
    | inr f ↦ rw (e, f) refl
  ]
]

or_default_text-twice :
    (d x : String) → or_default_text d (or_default_text d x) ≡ or_default_text d x
or_default_text-twice d x = elim (Bool-cases (is_empty x)) [
  | inr e ↦ rw (e, e) refl
  | inl e ↦ elim (Bool-cases (is_empty d)) [ inl f ↦ rw (e, f) refl | inr f ↦ rw (e, f) refl ]
]

or_default_text_self : (d : String) → or_default_text d d ≡ d
or_default_text_self d = elim (Bool-cases (is_empty d)) [ inr e ↦ rw e refl | inl e ↦ rw e refl ]

module _ {T : Type 0} (p : ConfigPackages T) where
  default_ip_or-twice :
      (subnet ip : String)
      → default_ip_or p subnet (default_ip_or p subnet ip) ≡ default_ip_or p subnet ip
  default_ip_or-twice subnet ip = elim (Bool-cases (is_empty ip)) [
    | inr e ↦ rw (e, e) refl
    | inl e ↦ elim (Option-cases (default_server_ip p subnet)) [
      | inl f ↦ rw (e, f, e, f) refl
      | inr (found, f) ↦ elim (Bool-cases (is_empty found)) [
        | inl g ↦ rw (e, f, g) refl
        | inr g ↦ rw (e, f, g) refl
      ]
    ]
  ]

  apply_file_defaults-twice :
      (iface : String) (file : FileConfig)
      → apply_file_defaults p iface (apply_file_defaults p iface file)
        ≡ apply_file_defaults p iface file
  unfolding apply_file_defaults
  apply_file_defaults-twice iface file =
      let subnet = or_default_text-twice default_subnet file.subnet in
      cc (
        or_default-twice 8080 file.api_port,
        or_default-twice 51820 file.listen_port,
        subnet,
        ap
              (λ s.
                default_ip_or p s
                  (default_ip_or p (or_default_text default_subnet file.subnet) file.server_ip))
              subnet
            ∙ default_ip_or-twice (or_default_text default_subnet file.subnet) file.server_ip,
        or_default_text-twice "1.1.1.1" file.dns,
        or_default-twice 25 file.keepalive_interval,
        or_default_text-twice (default_db_path iface) file.db_path,
        or_default-twice 180 file.session_idle_seconds,
      )

  -- A file that is read and kept is read the same again.
  unfoldable Kept : String → File T × Option FileConfig → Type 0
  Kept iface (disk, none) = Unit
  Kept iface (disk, some file) =
      (calls : Calls T) → load_or_create_file p calls iface disk ≡ (disk, some file)

  save_file-Kept :
      (calls : Calls T) (iface : String) (file : FileConfig)
      → is_empty file.secret_key ≡ false
      → apply_file_defaults p iface file ≡ file
      → Kept iface (save_file p calls file)
  unfolding Kept save_file load_or_create_file
  save_file-Kept calls iface file secret same = elim (Bool-cases calls.write_ok) [
    | inr bad ↦ rw bad tt
    | inl ok ↦ rw ok (λ other.
        rw (p.unmarshal-marshal file, secret) (ap (λ f. (contents (p.marshal file), some f)) same))
  ]

  apply_file_defaults-secret :
      (iface : String) (file : FileConfig)
      → (apply_file_defaults p iface file).secret_key ≡ file.secret_key
  unfolding apply_file_defaults
  apply_file_defaults-secret iface file = refl

  new_file_complete :
      (iface secret ip : String)
      → default_server_ip p default_subnet ≡ some ip
      → apply_file_defaults p iface (new_file p iface secret ip) ≡ new_file p iface secret ip
  unfolding apply_file_defaults
  new_file_complete iface secret ip e = elim (Bool-cases (is_empty ip)) [
    | inl empty ↦ rw (empty, e) (cc (or_default_text_self (default_db_path iface)))
    | inr full ↦ rw full (cc (or_default_text_self (default_db_path iface)))
  ]

  load_or_create_file-Kept :
      (calls : Calls T) (iface : String) (disk : File T)
      → ((secret : String) → calls.secret ≡ some secret → is_empty secret ≡ false)
      → Kept iface (load_or_create_file p calls iface disk)
  unfolding Kept load_or_create_file
  load_or_create_file-Kept calls iface unreadable drawn = tt
  load_or_create_file-Kept calls iface missing drawn = elim (Option-cases calls.secret) [
    | inl e ↦ rw (load_or_create_file, e) tt
    | inr (secret, e) ↦ elim (Option-cases (default_server_ip p default_subnet)) [
      | inl f ↦ rw (load_or_create_file, e, f) tt
      | inr (ip, f) ↦
          rw (load_or_create_file, e, f)
            (save_file-Kept calls iface (new_file p iface secret ip) (drawn secret e)
              (new_file_complete iface secret ip f))
    ]
  ]
  load_or_create_file-Kept calls iface (contents content) drawn =
      elim (Option-cases (p.unmarshal content)) [
        | inl e ↦ rw (load_or_create_file, e) tt
        | inr (file, e) ↦ elim (Bool-cases (is_empty file.secret_key)) [
          | inr full ↦
              rw (load_or_create_file, e, full) (λ other. rw (load_or_create_file, e, full) refl)
          | inl empty ↦ elim (Option-cases calls.secret) [
            | inl f ↦ rw (load_or_create_file, e, empty, f) tt
            | inr (secret, f) ↦
                rw (load_or_create_file, e, empty, f)
                  (save_file-Kept calls iface _
                    (ap is_empty (apply_file_defaults-secret iface _) ∙ drawn secret f)
                    (apply_file_defaults-twice iface (record file { secret_key = secret })))
          ]
        ]
      ]

  -- The end of `Load`.
  abbrev finish :
      (String → String) → String → File T × Option FileConfig → File T × Option (Option Config)
  finish env iface (disk, none) = (disk, none)
  finish env iface (disk, some file) = (disk, config_of p env iface file)

  finish-again :
      (calls other : Calls T) (iface : String) (disk disk' : File T) (config : Option Config)
      (r : File T × Option FileConfig)
      → load_or_create_file p calls iface disk ≡ r
      → Kept iface r
      → other.env ≡ calls.env
      → load p calls iface disk ≡ (disk', some config)
      → load p other iface disk' ≡ (disk', some config)
  unfolding Kept load
  finish-again calls other iface disk disk' config (d, none) made kept same loaded =
      let ended : (d, none) ≡ (disk', some config) =
        sym (ap (finish calls.env iface) made) ∙ loaded in
      cc ended
  finish-again calls other iface disk disk' config (d, some file) made kept same loaded =
      let ended : (d, config_of p calls.env iface file) ≡ (disk', some config) =
        sym (ap (finish calls.env iface) made) ∙ loaded in
      subst (λ at. load p other iface at ≡ (disk', some config)) (ap (λ r. r.0) ended)
        (ap (finish other.env iface) (kept other)
          ∙ ap (λ env. (d, config_of p env iface file)) same
          ∙ ended)

  -- Where a drawn secret is never empty, `Load` that succeeds leaves a file from which `Load` in
  -- the same environment gives the same settings and leaves the file as it is, without a secret
  -- to draw or a file to write.
  pub load-again :
      (calls other : Calls T) (iface : String) (disk disk' : File T) (config : Option Config)
      → ((secret : String) → calls.secret ≡ some secret → is_empty secret ≡ false)
      → other.env ≡ calls.env
      → load p calls iface disk ≡ (disk', some config)
      → load p other iface disk' ≡ (disk', some config)
  load-again calls other iface disk disk' config drawn same =
      finish-again calls other iface disk disk' config (load_or_create_file p calls iface disk) refl
        (load_or_create_file-Kept calls iface disk drawn) same
