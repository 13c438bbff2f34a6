-- ===== src/Cli/Control/Starts.antt =====
-- When `start` begins a run.
use modbusgw.Base.{
  Bool, true, false, [], ◌∷◌, ◌++◌, Option, none, some, String, if◌then◌else◌, inl, inr, ◌⊎◌, Exn,
  Result, ok, raise, is_os_error, cli_error, ◌≡◌, refl,
}
use modbusgw.Base.Exec.{pure, fail, ◌>>=◌}
use modbusgw.Base.Exec.Runs.{Ends, Ends-map, Ends-then, Ends-settled}
use modbusgw.App.{GatewayConfig, System, config_path}
use modbusgw.Cli.{
  Launch, StartOptions, Host, Service, named, on_world, read_outcome, read_pid_file, pid_is_running,
}
use modbusgw.Cli.Control.{cached, load_config, strict_pid_file, is_running, launch, start}
use modbusgw.Cli.Looks.{SameCalls, Found, Gone, pid_is_running-Found, Quiet}
use modbusgw.Base.Texts.{Text}
use modbusgw.Cli.Numbers.{ℤ, to_int}
use modbusgw.Cli.Control.Launching.{OneRun, launch-Launches}

module _ {W T : Type 0} (sys : System W) (host : Host W T) (path : String) where
  abbrev Same : Service W → Service W → Type 0
  Same = SameCalls sys host path

  abbrev Keeps : Service W → {A : Type 0} → Option (Result A) × Service W → Type 0
  Keeps o = Quiet sys host path o

  -- A configuration that the controller has, or that can be read
  abbrev pub IsConfig : Service W → GatewayConfig → Type 0
  IsConfig s config =
      (s.config ≡ some config)
      ⊎ ((w : W) × ((sys.read_config (config_path sys (some path)) w).0 ≡ ok config))

  -- What a pid file was found to hold
  abbrev pub Reads : String → Option ℤ → Type 0
  Reads file p =
      ((w : W) × (e : Exn) × ((host.read_text file w).0 ≡ raise e) × (p ≡ none))
      ⊎ ((w : W) × (content : Text) × ((host.read_text file w).0 ≡ ok content)
          × (p ≡ to_int 10 content))

  -- It names no process, or one that was found gone.
  abbrev pub NotRunning : Option ℤ → Type 0
  NotRunning none = Unit {0}
  NotRunning (some pid) = Gone sys host path pid

  -- One run has been begun, after the pid file of the configuration was found to name no process
  -- that is there.
  pub data Begun (o s : Service W) : Type 0 where
    begun_one :
        (config : GatewayConfig) (file : String) (p : Option ℤ) (l : Launch)
        → IsConfig o config
        → file ≡ sys.expanduser config.service.pid_file
        → Reads file p
        → NotRunning (named p)
        → s.launches ≡ o.launches ++ (l ∷ [])
        → s.signals ≡ o.signals
        → Begun o s

  abbrev pub BegunOrSame : Service W → Service W → Type 0
  BegunOrSame o s = Begun o s ⊎ Same o s

  read-IsConfig :
      (s : Service W) (w : W) (r : Result GatewayConfig) (t : Service W)
      → (sys.read_config (config_path sys (some path)) w).0 ≡ r
      → Same s t
      → Ends (λ config s'. IsConfig s config × Same s s') (Same s) (some r, t)
  read-IsConfig s w (ok config) t h same = (inr (w, h), same)
  read-IsConfig s w (raise e) t h same = same

  load_config-IsConfig :
      (s : Service W)
      → Ends (λ config s'. IsConfig s config × Same s s') (Same s) (load_config sys host path s)
  unfolding load_config
  load_config-IsConfig s = go s.config refl
    where
      go :
          (c : Option GatewayConfig)
          → s.config ≡ c
          → Ends (λ config s'. IsConfig s config × Same s s') (Same s) (cached sys host path c s)
      go (some config) e = unfold cached in (inl e, (refl, refl))
      go none e =
          unfold cached in
          read-IsConfig s s.world (sys.read_config (config_path sys (some path)) s.world).0 _ refl
            (refl, refl)

  read_outcome-Reads :
      (file : String) (o : Service W) (w : W) (r : Result Text) (s : Service W)
      → (host.read_text file w).0 ≡ r
      → Same o s
      → Ends (λ p s'. Reads file p × Same o s') (Same o) (read_outcome sys host path r s)
  unfolding read_outcome
  read_outcome-Reads file o w (ok content) s h same = (inr (w, content, h, refl), same)
  read_outcome-Reads file o w (raise e) s h same = passed (is_os_error e)
    where
      passed :
          (b : Bool)
          → Ends (λ p s'. Reads file p × Same o s') (Same o) ((if b then pure none else fail e) s)
      passed true = (inl (w, e, h, refl), same)
      passed false = same

  read_pid_file-Reads :
      (file : String) (o s : Service W)
      → Same o s
      → Ends (λ p s'. Reads file p × Same o s') (Same o) (read_pid_file sys host path file s)
  unfolding read_pid_file ◌>>=◌
  read_pid_file-Reads file o s same =
      read_outcome-Reads file o s.world (host.read_text file s.world).0
        (record s { world = (host.read_text file s.world).1 }) refl same

  is_running-NotRunning :
      (p : Option ℤ) (o s : Service W)
      → Same o s
      → Ends
          (λ b s'. (b ≡ false → NotRunning p) × Same o s')
          (Same o)
          (is_running sys host path p s)
  unfolding is_running
  is_running-NotRunning none o s same = (λ e. tt, same)
  is_running-NotRunning (some pid) o s same =
      Ends-map (λ b s'. Found sys host path pid b × Same o s')
        (λ b s'. (b ≡ false → Gone sys host path pid) × Same o s') (Same o) (Same o)
        (pid_is_running sys host path pid s) gone (λ s' h. h)
        (pid_is_running-Found sys host path pid o s same)
    where
      gone :
          (b : Bool) (s' : Service W)
          → Found sys host path pid b × Same o s'
          → (b ≡ false → Gone sys host path pid) × Same o s'
      gone true s' h = (λ e. absurd (cc), h.1)
      gone false s' h = (λ e. h.0, h.1)

  abbrev IsPidFile : Service W → String → Type 0
  IsPidFile s file =
      (config : GatewayConfig) × IsConfig s config × (file ≡ sys.expanduser config.service.pid_file)

  strict-IsPidFile :
      (s : Service W)
      → Ends (λ file s'. IsPidFile s file × Same s s') (Same s) (strict_pid_file sys host path s)
  unfolding strict_pid_file
  strict-IsPidFile s =
      Ends-then (λ config s'. IsConfig s config × Same s s')
        (λ file s'. IsPidFile s file × Same s s') (Same s) (Same s) (load_config sys host path) _ s
        (load_config-IsConfig s) (λ config s' h. ((config, h.0, refl), h.1)) (λ s' h. h)

  OneRun-Begun :
      (o s : Service W) (file : String) (p : Option ℤ)
      → IsPidFile o file
      → Reads file p
      → NotRunning (named p)
      → OneRun sys host path o s
      → Begun o s
  OneRun-Begun o s file p (config, c, e) r n (l, a, b) = begun_one config file p l c e r n a b

  -- The refusal, or the run
  guarded-Begun :
      (options : StartOptions) (o : Service W) (file : String) (p : Option ℤ) (running : Bool)
      (s : Service W)
      → IsPidFile o file
      → Reads file p
      → (running ≡ false → NotRunning (named p)) × Same o s
      → Ends
          (λ done. Begun o)
          (BegunOrSame o)
          ((if running
              then fail (cli_error "Gateway already running")
              else launch sys host path options file)
            s)
  guarded-Begun options o file p true s f r (n, same) = inr same
  guarded-Begun options o file p false s f r (n, same) =
      Ends-map (λ a s'. OneRun sys host path o s') (λ done. Begun o)
        (λ s'. OneRun sys host path o s' ⊎ Same o s') (BegunOrSame o)
        (launch sys host path options file s) (λ a s' h. OneRun-Begun o s' file p f r (n refl) h)
        kept (launch-Launches sys host path options file o s same)
    where
      kept : (s' : Service W) → OneRun sys host path o s' ⊎ Same o s' → BegunOrSame o s'
      kept s' (inl h) = inl (OneRun-Begun o s' file p f r (n refl) h)
      kept s' (inr h) = inr h

  -- `start` returns or raises, and sends no signal. If it returns, it has begun exactly one run, and
  -- that after it had found that the pid file of its configuration names no process that is there.
  -- If it raises, it has begun no run, or one in the same way.
  pub start-Begun :
      (options : StartOptions) (s : Service W)
      → Ends (λ done. Begun s) (BegunOrSame s) (start sys host path options s)
  unfolding start
  start-Begun options s =
      Ends-then (λ file s'. IsPidFile s file × Same s s') (λ done. Begun s) (Same s) (BegunOrSame s)
        (strict_pid_file sys host path) _ s (strict-IsPidFile s)
        (λ file s1 h1.
          Ends-then (λ done s'. Same s s') (λ done. Begun s) (Same s) (BegunOrSame s)
            (on_world sys host path (sys.mkdir (sys.parent file))) _ s1
            (Ends-settled (Same s) (sys.mkdir (sys.parent file) s1.world).0 _ h1.1)
            (λ done s2 h2.
              Ends-then (λ p s'. Reads file p × Same s s') (λ done. Begun s) (Same s)
                (BegunOrSame s) (read_pid_file sys host path file) _ s2
                (read_pid_file-Reads file s s2 h2)
                (λ p s3 h3.
                  Ends-then (λ b s'. (b ≡ false → NotRunning (named p)) × Same s s')
                    (λ done. Begun s) (Same s) (BegunOrSame s) (is_running sys host path (named p))
                    _ s3 (is_running-NotRunning (named p) s s3 h3.1)
                    (λ b s4 h4. guarded-Begun options s file p b s4 h1.0 h3.0 h4) (λ s' h. inr h))
                (λ s' h. inr h))
            (λ s' h. inr h))
        (λ s' h. inr h)
