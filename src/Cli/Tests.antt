-- ===== src/Cli/Tests.antt =====
-- The theorems on the commands over a system with one process, number 42, which a signal ends.
use modbusgw.Base.{
  ℕ, Bool, true, false, [], ◌∷◌, none, Result, ok, raise, process_lookup_error, ◌≡◌, arith,
}
use modbusgw.Base.Exec.Runs.{Ends}
use modbusgw.App.{System, GatewayConfig}
use modbusgw.Cli.{Sig, probe, sigterm, sigkill, sighup, Host, Service, StartOptions}
use modbusgw.Cli.Numbers.{octal, parse_umask}
use modbusgw.Cli.Numbers.Laws.{parse_umask-octal}
use modbusgw.Cli.Control.{stop, start}
use modbusgw.Cli.Control.Stops.{Over, Sent, stop-Ends}
use modbusgw.Cli.Control.Starts.{Begun, BegunOrSame, start-Begun}

parse_umask-octal_example :
    (parse_umask (octal 18) ≡ ok 18) × (parse_umask (b'0' ∷ b'o' ∷ octal 18) ≡ ok 18)
parse_umask-octal_example = parse_umask-octal 18 (omega arith)

abbrev config : GatewayConfig
config = record {
  service = record {
    log_level = "INFO";
    pid_file = "gw.pid";
    state_dir = "state";
    log_file = none;
  };
  request_queue_size = 8;
  frontends = [];
  backends = [];
  routes = [];
}

-- The world is whether the process is there.
abbrev system : System Bool
system = record {
  expanduser = λ p. p;
  default_config = "default";
  parent = λ p. "dir";
  read_config = λ p w. (ok config, w);
  mkdir = λ p w. (ok tt, w);
  write_pid = λ p w. (ok tt, w);
  exists = λ p w. (true, w);
  unlink = λ p w. (ok tt, w);
  set_level = λ p w. (ok tt, w);
  construct = λ c w. (ok tt, w);
  answer = λ c w. (ok tt, w);
}

abbrev signalled : Sig → Bool → Result (Unit {0}) × Bool
signalled sig false = (raise process_lookup_error, false)
signalled probe true = (ok tt, true)
signalled sigterm true = (ok tt, false)
signalled sigkill true = (ok tt, false)
signalled sighup true = (ok tt, true)

abbrev one_process : Host Bool ℕ
one_process = record {
  read_text = λ p w. (ok (b'4' ∷ b'2' ∷ []), w);
  loads = λ t. none;
  kill = λ pid sig w. signalled sig w;
  rounds = λ t w. t;
  sleep = λ w. w;
  five_seconds = 25;
  is_absolute = λ p. true;
  path_join = λ a b. b;
  serve = λ p w. (ok tt, w);
  daemonize = λ l c u w. (ok tt, true);
}

abbrev running : Service Bool
running = record { config = none; signals = []; launches = []; world = true }

stop-Ends_example :
    Ends
      (λ done s. Over system one_process "cfg" running s)
      (Sent system one_process "cfg" running)
      (stop system one_process "cfg" 75 running)
stop-Ends_example = stop-Ends system one_process "cfg" 75 running

abbrev options : StartOptions
options = record { foreground = false; log_file = none; chdir = "/"; umask = 18 }

-- The pid file is stale.
start-Begun_example :
    Ends
      (λ done. Begun system one_process "cfg" (record running { world = false }))
      (BegunOrSame system one_process "cfg" (record running { world = false }))
      (start system one_process "cfg" options (record running { world = false }))
start-Begun_example =
    start-Begun system one_process "cfg" options (record running { world = false })
