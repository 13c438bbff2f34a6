-- ===== src/Cli.antt =====
-- modbusgw/cli.py: the commands that start, stop and watch the gateway's process by its pid file.
-- Printing is left out. The signals that are sent and the runs that are begun are written down.
pub mod Numbers
pub mod Control
pub mod Looks
mod Tests
use modbusgw.Base.{
  ℕ, zero, suc, ◌+◌, Bool, true, false, not, List, [], ◌∷◌, ◌++◌, Option, none, some, String,
  str_eq, if◌then◌else◌, Exn, Result, ok, raise, is_os_error, cli_error, attribute_error,
  process_lookup_error, permission_error,
}
use modbusgw.Base.Exec.{Exec, pure, fail, lift, attempt, ◌>>=◌, ◌>>◌}
use modbusgw.App.{GatewayConfig, ServiceConfig, System, config_path}
use modbusgw.Base.Texts.{Text}
use modbusgw.Cli.Numbers.{ℤ, pos, negsuc, to_int}
use Prim.Native.String.{◌++◌ as join}

-- What `json.loads` gives, as far as it is looked at.
mutual
  pub data Json : Type 0 where
    str_value : String → Json
    object : Fields → Json
    other : Json

  pub data Fields : Type 0 where
    end : Fields
    field : String → Json → Fields → Fields

-- Signal 0 only asks whether there is such a process.
pub data Sig : Type 0 where
  probe sigterm sigkill sighup : Sig

-- A run that `start` begins: in the foreground, or as a daemon with its log file
pub data Launch : Type 0 where
  in_foreground : Launch
  as_daemon : Option String → Launch

pub record StartOptions : Type 0 where
  pub foreground : Bool
  pub log_file : Option String
  pub chdir : String
  pub umask : ℕ

-- A command with its arguments
pub data Order (T : Type 0) : Type 0 where
  start_order : StartOptions → Order T
  stop_order : T → Order T
  reload_order status_order : Order T
  restart_order : T → StartOptions → Order T

-- The system that the commands call, beside the one of the application. `T` is spans of time.
pub record Host (W T : Type 0) : Type 0 where
  pub read_text : String → W → Result Text × W
  pub loads : Text → Option Json
  pub kill : ℤ → Sig → W → Result (Unit {0}) × W
  -- how often a loop finds that its deadline has not come, where it waits so long
  pub rounds : T → W → ℕ
  pub sleep : W → W
  pub five_seconds : T
  pub is_absolute : String → Bool
  -- `parent / name`
  pub path_join : String → String → String
  -- asyncio runs the application
  pub serve : String → W → Result (Unit {0}) × W
  pub daemonize : Option String → String → ℕ → W → Result (Unit {0}) × W

-- The field of `ServiceController` that changes, what was sent and begun, and the world outside
pub record Service (W : Type 0) : Type 0 where
  pub config : Option GatewayConfig
  pub signals : List (ℤ × Sig)
  pub launches : List Launch
  pub world : W

-- `if not pid`: no process has the number 0.
abbrev pub named : Option ℤ → Option ℤ
named none = none
named (some (pos zero)) = none
named (some (pos (suc n))) = some (pos (suc n))
named (some (negsuc n)) = some (negsuc n)

module _ {W T : Type 0} (sys : System W) (host : Host W T) (path : String) where
  abbrev pub Command : Type 0 → Type 0
  Command A = Exec (Service W) A

  abbrev pub on_world : {A : Type 0} → (W → Result A × W) → Command A
  on_world act s = let (outcome, w) = act s.world in (some outcome, record s { world = w })

  -- `with contextlib.suppress(OSError)`
  pub suppressed : Result (Unit {0}) → Command (Unit {0})
  suppressed (ok done) = pure tt
  suppressed (raise e) = if is_os_error e then pure tt else fail e

  pub remove : String → Command (Unit {0})
  remove file = do outcome ← attempt (on_world (sys.unlink file)); suppressed outcome

  -- `os.kill(pid, sig)` with a signal that counts
  pub send : ℤ → Sig → Command (Unit {0})
  send pid sig s =
      let (outcome, w) = host.kill pid sig s.world in
      (some outcome, record s { signals = s.signals ++ ((pid, sig) ∷ []); world = w })

  pub read_outcome : Result Text → Command (Option ℤ)
  read_outcome (raise e) = if is_os_error e then pure none else fail e
  read_outcome (ok content) = pure (to_int 10 content)

  -- `_read_pid_file`; no text and one that is no number give none
  pub read_pid_file : String → Command (Option ℤ)
  read_pid_file file = do content ← attempt (on_world (host.read_text file)); read_outcome content

  pub answers : Result (Unit {0}) → Command Bool
  answers (ok done) = pure true
  answers (raise process_lookup_error) = pure false
  answers (raise permission_error) = pure true
  answers (raise e) = fail e

  -- `_pid_is_running`
  pub pid_is_running : ℤ → Command Bool
  pid_is_running pid = do outcome ← attempt (on_world (host.kill pid probe)); answers outcome

  abbrev pub sleep : Command (Unit {0})
  sleep s = (some (ok tt), record s { world = host.sleep s.world })

  -- The loop of `_wait_for_exit` by its rounds, and the look after the deadline
  pub poll : ℕ → ℤ → Command Bool
  poll zero pid = do running ← pid_is_running pid; pure (not running)
  poll (suc n) pid = do
    let later = do sleep; poll n pid
    running ← pid_is_running pid
    if running then later else pure true

  -- `_wait_for_exit`
  pub wait_for_exit : ℤ → T → Command Bool
  wait_for_exit pid timeout s = poll (host.rounds timeout s.world) pid s
