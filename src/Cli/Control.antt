-- ===== src/Cli/Control.antt =====
-- `ServiceController` of modbusgw/cli.py: its paths, and the commands start, stop, reload, status.
pub mod Stops
pub mod Starts
mod Launching
use modbusgw.Base.{
  ℕ, zero, suc, ◌+◌, Bool, true, false, not, List, [], ◌∷◌, ◌++◌, Option, none, some, String,
  str_eq, if◌then◌else◌, Exn, Result, ok, raise, is_os_error, cli_error, attribute_error,
  process_lookup_error, permission_error,
}
use modbusgw.Base.Exec.{Exec, pure, fail, lift, attempt, ◌>>=◌, ◌>>◌}
use modbusgw.App.{GatewayConfig, ServiceConfig, System, config_path}
use modbusgw.Base.Texts.{Text}
use modbusgw.Cli.Numbers.{ℤ, pos, negsuc, to_int}
use Prim.Native.String.{◌++◌ as join}
use modbusgw.Cli.{
  Json, str_value, object, other, Fields, end, field, Sig, probe, sigterm, sigkill, sighup, Launch,
  in_foreground, as_daemon, StartOptions, Order, start_order, stop_order, reload_order,
  status_order, restart_order, Host, Service, named, Command, on_world, remove, send, read_pid_file,
  pid_is_running, wait_for_exit,
}

get : String → Fields → Option Json
get key end = none
get key (field k value rest) = if str_eq k key then some value else get key rest

-- `data.get('service')` and `service.get('pid_file')`, where they are of the right types
pid_file_of : Option Json → Option String
pid_file_of (some (str_value path)) = some path
pid_file_of _ = none

raw_pid_file : Option Json → Option String
unfolding get pid_file_of
raw_pid_file (some (object fields)) = pid_file_of (get "pid_file" fields)
raw_pid_file _ = none

module _ {W T : Type 0} (sys : System W) (host : Host W T) (path : String) where
  -- `_load_config`, which keeps what it has loaded
  remember : Result GatewayConfig → Option GatewayConfig
  remember (ok config) = some config
  remember (raise e) = none

  pub cached : Option GatewayConfig → Command sys host path GatewayConfig
  unfolding remember
  cached (some config) s = (some (ok config), s)
  cached none s =
      let (outcome, w) = sys.read_config (config_path sys (some path)) s.world in
      (some outcome, record s { config = remember outcome; world = w })

  pub load_config : Command sys host path GatewayConfig
  load_config s = cached s.config s

  -- `_pid_file_from_raw_config`, and the default where it finds nothing
  raw_or_default : Option String → String
  raw_or_default (some file) = sys.expanduser file
  raw_or_default none = sys.expanduser "/var/run/modbusgw.pid"

  pub from_json : Option Json → Command sys host path String
  unfolding raw_pid_file raw_or_default
  from_json none = pure (raw_or_default none)
  from_json (some (object fields)) = pure (raw_or_default (raw_pid_file (get "service" fields)))
  from_json (some (str_value t)) = fail (attribute_error "object has no attribute 'get'")
  from_json (some other) = fail (attribute_error "object has no attribute 'get'")

  pub fallback : Result Text → Command sys host path String
  unfolding raw_or_default
  fallback (raise e) = pure (raw_or_default none)
  fallback (ok content) = from_json (host.loads content)

  pub configured : Result GatewayConfig → Command sys host path String
  configured (ok config) = pure (sys.expanduser config.service.pid_file)
  configured (raise e) = do
    content ← attempt (on_world sys host path (host.read_text (sys.expanduser path)))
    fallback content

  -- `pid_file_path(strict=True)` and `pid_file_path(strict=False)`
  pub strict_pid_file : Command sys host path String
  strict_pid_file = do config ← load_config; pure (sys.expanduser config.service.pid_file)

  pub pid_file_path : Command sys host path String
  pid_file_path = do loaded ← attempt load_config; configured loaded

  -- `stop`, from the signal on
  pub kill_hard : ℤ → Bool → Command sys host path (Unit {0})
  kill_hard pid true = pure tt
  kill_hard pid false = do
    send sys host path pid sigkill
    late ← wait_for_exit sys host path pid host.five_seconds
    if late then pure tt else fail (cli_error "Gateway did not exit in time")

  pub terminate : T → String → ℤ → Command sys host path (Unit {0})
  terminate timeout file pid = do
    send sys host path pid sigterm
    gone ← wait_for_exit sys host path pid timeout
    kill_hard pid gone
    remove sys host path file

  pub stop_found : T → String → ℤ → Bool → Command sys host path (Unit {0})
  stop_found timeout file pid true = terminate timeout file pid
  stop_found timeout file pid false = do
    remove sys host path file
    fail (cli_error "Gateway pidfile exists but process is not running")

  pub stop_process : T → String → Option ℤ → Command sys host path (Unit {0})
  stop_process timeout file none =
      fail (cli_error "Gateway is not running (pidfile missing or unreadable)")
  stop_process timeout file (some pid) = do
    running ← pid_is_running sys host path pid
    stop_found timeout file pid running

  -- `stop`
  pub stop : T → Command sys host path (Unit {0})
  stop timeout = do
    file ← pid_file_path
    pid ← read_pid_file sys host path file
    stop_process timeout file (named pid)

  pub reload_process : Option ℤ → Command sys host path (Unit {0})
  reload_process none = fail (cli_error "Gateway is not running")
  reload_process (some pid) = do
    running ← pid_is_running sys host path pid
    if running then send sys host path pid sighup else fail (cli_error "Gateway is not running")

  -- `reload`
  pub reload : Command sys host path (Unit {0})
  reload = do
    file ← pid_file_path
    pid ← read_pid_file sys host path file
    reload_process (named pid)

  pub is_running : Option ℤ → Command sys host path Bool
  is_running none = pure false
  is_running (some pid) = pid_is_running sys host path pid

  -- `status`, without its text
  pub status : Command sys host path Bool
  status = do file ← pid_file_path; pid ← read_pid_file sys host path file; is_running (named pid)

  -- `_resolve_log_path`
  pub resolve_log_path : Option String → Command sys host path (Option String)
  resolve_log_path none = pure none
  resolve_log_path (some file) =
      let named_file = sys.expanduser file in
      let candidate =
        if host.is_absolute named_file
        then named_file
        else host.path_join (sys.parent (sys.expanduser path)) named_file in
      if str_eq file ""
      then pure none
      else (do on_world sys host path (sys.mkdir (sys.parent candidate)); pure (some candidate))

  -- A run is begun.
  abbrev pub begun : Launch → (W → Result (Unit {0}) × W) → Command sys host path (Unit {0})
  begun l act s =
      let (outcome, w) = act s.world in
      (some outcome, record s { launches = s.launches ++ (l ∷ []); world = w })

  pub daemonized : Result (Unit {0}) → Command sys host path (Unit {0})
  daemonized (ok done) = pure tt
  daemonized (raise e) = fail (cli_error "Failed to daemonize gateway")

  -- `_start_daemon`
  pub start_daemon : String → Option String → StartOptions → Command sys host path (Unit {0})
  start_daemon file log_path options = do
    remove sys host path (join file ".daemon")
    outcome ←
        attempt (begun (as_daemon log_path) (host.daemonize log_path options.chdir options.umask))
    daemonized outcome

  -- `log_file if log_file is not None else self._service_log_file()`
  pub log_of : Option String → Command sys host path (Option String)
  log_of (some file) = pure (some file)
  log_of none = do
    config ← load_config
    pure (elim config.service.log_file [ none ↦ none | some file ↦ some (sys.expanduser file) ])

  -- `start` from `_start_daemon` on; the pid that is read is only printed.
  pub detached : String → Option String → StartOptions → Command sys host path (Unit {0})
  detached file log_path options = do
    start_daemon file log_path options
    read_pid_file sys host path file
    pure tt

  pub launch_as : StartOptions → String → Bool → Command sys host path (Unit {0})
  launch_as options file true = begun in_foreground (host.serve path)
  launch_as options file false = do
    chosen ← log_of options.log_file
    log_path ← resolve_log_path chosen
    detached file log_path options

  pub launch : StartOptions → String → Command sys host path (Unit {0})
  launch options file = do remove sys host path file; launch_as options file options.foreground

  -- `start`
  pub start : StartOptions → Command sys host path (Unit {0})
  start options = do
    file ← strict_pid_file
    on_world sys host path (sys.mkdir (sys.parent file))
    existing ← read_pid_file sys host path file
    running ← is_running (named existing)
    if running then fail (cli_error "Gateway already running") else launch options file

  pub passed_over : Result (Unit {0}) → Command sys host path (Unit {0})
  passed_over (ok done) = pure tt
  passed_over (raise (cli_error text)) = pure tt
  passed_over (raise e) = fail e

  -- `_command_restart`: what `stop` raises of its own is passed over
  pub restart : T → StartOptions → Command sys host path (Unit {0})
  restart timeout options = do stopped ← attempt (stop timeout); passed_over stopped; start options

  pub reported : Bool → Command sys host path (Unit {0})
  reported true = pure tt
  reported false = fail (cli_error "Service not running")

  -- The command that is given; without one, `start` in the foreground
  pub handler : Option (Order T) → Command sys host path (Unit {0})
  handler none = start (record { foreground = true; log_file = none; chdir = "/"; umask = 18 })
  handler (some (start_order options)) = start options
  handler (some (stop_order timeout)) = stop timeout
  handler (some reload_order) = reload
  handler (some status_order) = do running ← status; reported running
  handler (some (restart_order timeout options)) = restart timeout options

  pub exit_status : Result (Unit {0}) → Command sys host path ℕ
  exit_status (ok done) = pure 0
  exit_status (raise (cli_error text)) = pure 1
  exit_status (raise e) = fail e

  -- `main` behind the parser of arguments: the status that the program exits with
  pub main : Option (Order T) → Command sys host path ℕ
  main order = do outcome ← attempt (handler order); exit_status outcome
