-- ===== src/Settings/Valid.antt =====
-- What an accepted configuration satisfies (src/config.go).
use mathlib.Core.Path.{subst}
use pg_guard.Prelude.{ℤ, ◌<◌, ◌≡◌, ◌≢◌, ◌⊎◌, refl, Bool, true, false, List, Text, is_empty, arith}
use pg_guard.Config.{Config}
use pg_guard.Settings.{Load, accepted, refused, ◌>>=◌, Os}
use pg_guard.Settings.Tables.{with_textfile}
use pg_guard.Settings.Parts.{
  PostgresPart, TlsPart, ServerPart, PeerPart, PolicyPart, BackupPart, RestartPart,
}
use pg_guard.Settings.Sections.{
  load_postgres, load_tls, load_servers, load_peer, load_policies, load_backups, load_restarts,
}
use pg_guard.Settings.Loader.{assembled, load_config}

abbrev pub Positive : ℤ → Type 0
Positive (ℤ.pos n) = 0 < n
Positive (ℤ.negsuc n) = ⊥

abbrev pub NonNegative : ℤ → Type 0
NonNegative (ℤ.pos n) = Unit
NonNegative (ℤ.negsuc n) = ⊥

-- A client certificate is asked for only over TLS, with authorities that load; TLS has a key that loads.
abbrev pub SoundTls : Os → Bool → Bool → Text → Text → Text → Type 0
SoundTls os true false cert key root = ⊥
SoundTls os false false cert key root = Unit
SoundTls os false true cert key root = os.loads_key_pair cert key ≡ true
SoundTls os true true cert key root =
    (os.loads_key_pair cert key ≡ true) × (os.loads_authorities root ≡ true)

-- Backups go to a directory or to a command, and to one of them when they are enabled.
abbrev pub OneTarget : Bool → Text → Text → Type 0
OneTarget backups dir command =
    ((is_empty dir ≡ true) ⊎ (is_empty command ≡ true))
    × ((backups ≡ false) ⊎ (is_empty dir ≡ false) ⊎ (is_empty command ≡ false))

module _ (os : Os) where
  pub record IsValid (c : Config) : Type 0 where
    pub has_data : is_empty c.pg_data ≡ false
    pub shutdown_positive : Positive c.shutdown_wait
    pub ports_differ : c.api_port ≢ c.metrics_port
    pub writer_positive : Positive c.textfile_interval
    pub writer_has_dir : (c.textfile_enabled ≡ false) ⊎ (is_empty c.textfile_dir ≡ false)
    pub sound_tls :
        SoundTls os c.mtls_require c.tls_enabled c.tls_cert_file c.tls_key_file c.tls_root_cert_file
    pub one_target : OneTarget c.backup_enabled c.backup_dir c.backup_command
    pub backup_positive : Positive c.backup_interval × Positive c.backup_retain
    pub restart_bounds :
        NonNegative c.postgres_restart_limit
        × Positive c.postgres_restart_window
        × NonNegative c.postgres_restart_backoff

  postgres_valid :
      {p : PostgresPart}
      → load_postgres os ≡ accepted p
      → (is_empty p.pg_data ≡ false) × Positive p.shutdown_wait
  unfolding load_postgres
  postgres_valid h = ground (arith, h)

  tls_valid :
      (args : List Text) {t : TlsPart}
      → load_tls os args ≡ accepted t
      → SoundTls os t.mtls t.enabled t.cert_file t.key_file t.root_file
  unfolding load_tls
  tls_valid args h = ground (arith, h)

  servers_valid :
      (tls : Bool) {s : ServerPart}
      → load_servers os tls ≡ accepted s
      → Positive s.textfile_interval
        × (s.api_port ≢ s.metrics_port)
        × ((with_textfile s.metrics_mode ≡ false) ⊎ (is_empty s.textfile_dir ≡ false))
  unfolding load_servers
  servers_valid tls h = ground (arith, h)

  backups_valid :
      {b : BackupPart}
      → load_backups os ≡ accepted b
      → Positive b.interval × Positive b.retain × OneTarget b.backups b.dir b.command
  unfolding load_backups
  backups_valid h = ground (arith, h)

  restarts_valid :
      {r : RestartPart}
      → load_restarts os ≡ accepted r
      → NonNegative r.limit × Positive r.window × NonNegative r.backoff
  unfolding load_restarts
  restarts_valid h = ground (arith, h)

accepted_inj {ℓ} : {A : Type ℓ} {a b : A} → accepted a ≡ accepted b → a ≡ b
accepted_inj h = cc h

bind_accepted {ℓ κ} :
    {A : Type ℓ} {B : Type κ} (m : Load A) {k : A → Load B} {b : B}
    → m >>= k ≡ accepted b
    → (a : A) × (m ≡ accepted a) × (k a ≡ accepted b)
bind_accepted (accepted a) h = (a, refl, h)
bind_accepted (refused r) h = ground (arith, h)

-- The parts that an accepted configuration was assembled from.
pub record Loaded (os : Os) (c : Config) : Type 0 where
  pub p : PostgresPart
  pub t : TlsPart
  pub s : ServerPart
  pub r : PeerPart
  pub o : PolicyPart
  pub b : BackupPart
  pub u : RestartPart
  pub p_loads : load_postgres os ≡ accepted p
  pub t_loads : load_tls os p.args ≡ accepted t
  pub s_loads : load_servers os t.enabled ≡ accepted s
  pub r_loads : load_peer os s ≡ accepted r
  pub b_loads : load_backups os ≡ accepted b
  pub u_loads : load_restarts os ≡ accepted u
  pub whole : assembled os p t s r o b u ≡ c

pub load_config-Loaded : (os : Os) (c : Config) → load_config os ≡ accepted c → Loaded os c
unfolding load_config
load_config-Loaded os c h =
    let (p, hp, h1) = bind_accepted (load_postgres os) h in
    let (t, ht, h2) = bind_accepted (load_tls os p.args) h1 in
    let (s, hs, h3) = bind_accepted (load_servers os t.enabled) h2 in
    let (r, hr, h4) = bind_accepted (load_peer os s) h3 in
    let (o, ho, h5) = bind_accepted (load_policies os) h4 in
    let (b, hb, h6) = bind_accepted (load_backups os) h5 in
    let (u, hu, h7) = bind_accepted (load_restarts os) h6 in
    record {
      p = p;
      t = t;
      s = s;
      r = r;
      o = o;
      b = b;
      u = u;
      p_loads = hp;
      t_loads = ht;
      s_loads = hs;
      r_loads = hr;
      b_loads = hb;
      u_loads = hu;
      whole = accepted_inj h7;
    }

-- A configuration that the loader accepts names a data directory, listens for the API and for the
-- metrics on different ports, and writes the textfile, if it does, to a named directory. Its shutdown
-- wait and its intervals of the textfile and of the backups are positive, at least one backup is
-- retained, and backups go to a directory or to a command, not both, and to one of them when they are
-- enabled. TLS is on only with a key pair that loads, and client certificates are required only with
-- TLS and authorities that load. The limit and the backoff of crash restarts are not negative and
-- their window is positive.
pub load_config-IsValid : (os : Os) (c : Config) → load_config os ≡ accepted c → IsValid os c
load_config-IsValid os c h =
    let l = load_config-Loaded os c h in
    let (has_data, waits) = postgres_valid os l.p_loads in
    let (writes, ports, has_dir) = servers_valid os l.t.enabled l.s_loads in
    let (interval, retain, target) = backups_valid os l.b_loads in
    subst (IsValid os) l.whole (record {
      has_data = has_data;
      shutdown_positive = waits;
      ports_differ = ports;
      writer_positive = writes;
      writer_has_dir = has_dir;
      sound_tls = tls_valid os l.p.args l.t_loads;
      one_target = target;
      backup_positive = (interval, retain);
      restart_bounds = restarts_valid os l.u_loads;
    })
