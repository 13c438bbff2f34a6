-- ===== src/Cli/Control/Launching.antt =====
-- How a run is begun: one and no more, and no signal is sent.
use modbusgw.Base.{
  Bool, true, false, [], ◌∷◌, ◌++◌, Option, none, some, String, str_eq, if◌then◌else◌, inl, inr,
  ◌⊎◌, Result, ◌≡◌, ap, refl, ◌∙◌,
}
use modbusgw.Base.Exec.{pure}
use modbusgw.Base.Exec.Runs.{Ends, Ends-map, Ends-then, Ends-try, Ends-settled}
use modbusgw.App.{System}
use modbusgw.Cli.{
  Launch, in_foreground, as_daemon, StartOptions, Host, Service, Command, on_world, remove,
  read_pid_file,
}
use modbusgw.Cli.Control.{
  load_config, log_of, resolve_log_path, begun, daemonized, start_daemon, launch_as, launch,
  detached,
}
use modbusgw.Cli.Control.Stops.{load_config-Quiet}
use modbusgw.Cli.Looks.{SameCalls, Quiet, remove-Quiet, read_pid_file-Quiet}

module _ {W T : Type 0} (sys : System W) (host : Host W T) (path : String) where
  abbrev Same : Service W → Service W → Type 0
  Same = SameCalls sys host path

  abbrev Keeps : Service W → {A : Type 0} → Option (Result A) × Service W → Type 0
  Keeps o = Quiet sys host path o

  -- One run more, and no signal
  abbrev pub OneRun : Service W → Service W → Type 0
  OneRun o s = (l : Launch) × (s.launches ≡ o.launches ++ (l ∷ [])) × (s.signals ≡ o.signals)

  -- What begins a run, also if that raises; where it raises before, none is begun.
  abbrev pub Launches : Service W → {A : Type 0} → Option (Result A) × Service W → Type 0
  Launches o = Ends (λ a s'. OneRun o s') (λ s'. OneRun o s' ⊎ Same o s')

  begun-OneRun :
      (l : Launch) (act : W → Result (Unit {0}) × W) (o s : Service W)
      → Same o s
      → Ends (λ a s'. OneRun o s') (OneRun o) (begun sys host path l act s)
  begun-OneRun l act o s (a, b) =
      Ends-settled (OneRun o) (act s.world).0 _ (l, ap (λ t. t ++ (l ∷ [])) b, a)

  start_daemon-Launches :
      (file : String) (log_path : Option String) (options : StartOptions) (o s : Service W)
      → Same o s
      → Launches o (start_daemon sys host path file log_path options s)
  unfolding start_daemon daemonized
  start_daemon-Launches file log_path options o s same =
      Ends-then (λ a s'. Same o s') (λ a s'. OneRun o s') (Same o) (λ s'. OneRun o s' ⊎ Same o s') _
        _ s (remove-Quiet sys host path _ o s same)
        (λ a s1 h1.
          Ends-try (λ a s'. OneRun o s') (λ a s'. OneRun o s') (OneRun o)
            (λ s'. OneRun o s' ⊎ Same o s')
            (begun sys host path (as_daemon log_path)
              (host.daemonize log_path options.chdir options.umask))
            _ s1
            (begun-OneRun (as_daemon log_path) (host.daemonize log_path options.chdir options.umask)
              o s1 h1)
            (λ a s2 h2. h2) (λ e s2 h2. inl h2))
        (λ s' h. inr h)

  quiet-OneRun : (o s s' : Service W) → OneRun o s → Same s s' → OneRun o s'
  quiet-OneRun o s s' (l, a, b) (c, d) = (l, d ∙ a, c ∙ b)

  detached-Launches :
      (file : String) (log_path : Option String) (options : StartOptions) (o s : Service W)
      → Same o s
      → Launches o (detached sys host path file log_path options s)
  unfolding detached
  detached-Launches file log_path options o s same =
      Ends-then (λ a s'. OneRun o s') (λ a s'. OneRun o s') (λ s'. OneRun o s' ⊎ Same o s')
        (λ s'. OneRun o s' ⊎ Same o s') (start_daemon sys host path file log_path options) _ s
        (start_daemon-Launches file log_path options o s same)
        (λ a s1 h1.
          Ends-then (λ p s'. Same s1 s') (λ p s'. OneRun o s') (Same s1)
            (λ s'. OneRun o s' ⊎ Same o s') (read_pid_file sys host path file) _ s1
            (read_pid_file-Quiet sys host path file s1 s1 (refl, refl))
            (λ p s2 h2. quiet-OneRun o s1 s2 h1 h2) (λ s2 h2. inl (quiet-OneRun o s1 s2 h1 h2)))
        (λ s' h. h)

  log_of-Keeps :
      (chosen : Option String) (o s : Service W)
      → Same o s
      → Keeps o (log_of sys host path chosen s)
  unfolding log_of
  log_of-Keeps (some file) o s same = same
  log_of-Keeps none o s same =
      Ends-then (λ c s'. Same o s') (λ c s'. Same o s') (Same o) (Same o)
        (load_config sys host path) _ s (load_config-Quiet sys host path o s same) (λ c s' h. h)
        (λ s' h. h)

  if-Keeps :
      {A : Type 0} (b : Bool) (x y : Command sys host path A) (o s : Service W)
      → Keeps o (x s)
      → Keeps o (y s)
      → Keeps o ((if b then x else y) s)
  if-Keeps true x y o s h k = h
  if-Keeps false x y o s h k = k

  resolve_log_path-Keeps :
      (file : Option String) (o s : Service W)
      → Same o s
      → Keeps o (resolve_log_path sys host path file s)
  unfolding resolve_log_path
  resolve_log_path-Keeps none o s same = same
  resolve_log_path-Keeps (some file) o s same = if-Keeps (str_eq file "") (pure none) _ o s same (
      Ends-then (λ a s'. Same o s') (λ a s'. Same o s') (Same o) (Same o) (on_world sys host path _)
        _ s (Ends-settled (Same o) _ _ same) (λ a s' h. h) (λ s' h. h))

  launch_as-Launches :
      (options : StartOptions) (file : String) (foreground : Bool) (o s : Service W)
      → Same o s
      → Launches o (launch_as sys host path options file foreground s)
  unfolding launch_as
  launch_as-Launches options file true o s same =
      Ends-map (λ a s'. OneRun o s') (λ a s'. OneRun o s') (OneRun o)
        (λ s'. OneRun o s' ⊎ Same o s') (begun sys host path in_foreground (host.serve path) s)
        (λ a s' h. h) (λ s' h. inl h) (begun-OneRun in_foreground (host.serve path) o s same)
  launch_as-Launches options file false o s same =
      Ends-then (λ a s'. Same o s') (λ a s'. OneRun o s') (Same o) (λ s'. OneRun o s' ⊎ Same o s')
        (log_of sys host path options.log_file) _ s (log_of-Keeps options.log_file o s same)
        (λ chosen s1 h1.
          Ends-then (λ a s'. Same o s') (λ a s'. OneRun o s') (Same o)
            (λ s'. OneRun o s' ⊎ Same o s') (resolve_log_path sys host path chosen) _ s1
            (resolve_log_path-Keeps chosen o s1 h1)
            (λ log_path s2 h2. detached-Launches file log_path options o s2 h2) (λ s' h. inr h))
        (λ s' h. inr h)

  pub launch-Launches :
      (options : StartOptions) (file : String) (o s : Service W)
      → Same o s
      → Launches o (launch sys host path options file s)
  unfolding launch
  launch-Launches options file o s same =
      Ends-then (λ a s'. Same o s') (λ a s'. OneRun o s') (Same o) (λ s'. OneRun o s' ⊎ Same o s')
        (remove sys host path file) _ s (remove-Quiet sys host path file o s same)
        (λ a s1 h1. launch_as-Launches options file options.foreground o s1 h1) (λ s' h. inr h)
