-- ===== src/App/Reloads.antt =====
-- `_reload_runtime`: the ways in which a reload ends.
pub mod Starting
use modbusgw.Base.{
  ℕ, ◌+◌, Bool, true, false, List, [], ◌∷◌, ◌++◌, Option, none, some, String, Exn, Result, ok,
  raise, ◌≡◌, refl, ap, subst, sym, ◌∙◌, Result-cases, inl, inr, ◌⊎◌,
}
use mathlib.Core.List.{append-nil, append_assoc}
use modbusgw.Base.Exec.{Exec, pure, attempt, ◌>>=◌, ◌>>◌}
use modbusgw.Base.Exec.Runs.{bind-eq-ok, bind_ok, bind_raise, bind_attempt}
use modbusgw.Bus.{new_bus}
use modbusgw.Router.Config.{build_router_from_config}
use modbusgw.App.{
  GatewayConfig, FrontendConfig, frontend_id, Component, dispatcher, responder, frontend, Call,
  start, store, RuntimeBundle, System, Gateway, on_world, perform, load_config, start_frontends,
  start_runtime, stop_runtime, build_backends, expanded, installed, loaded, reload_runtime,
  write_pid_file, config_path,
}
use modbusgw.App.Laws.{takedown, stop_runtime-takedown}
pub use modbusgw.App.Reloads.Starting.*

module _ {W : Type 0} (sys : System W) where
  -- The two paths have the home directory written out, and nothing else differs.
  abbrev pub Expands : GatewayConfig → GatewayConfig → Type 0
  Expands config full =
      (full.service.pid_file ≡ sys.expanduser config.service.pid_file)
      × (full.service.state_dir ≡ sys.expanduser config.service.state_dir)
      × (full.service.log_level ≡ config.service.log_level)
      × (full.service.log_file ≡ config.service.log_file)
      × (full.request_queue_size ≡ config.request_queue_size)
      × (full.frontends ≡ config.frontends)
      × (full.backends ≡ config.backends)
      × (full.routes ≡ config.routes)

  -- What follows a start raises what making the pid file's directory, writing it or setting the log
  -- level raised.
  abbrev pub Unwritten : GatewayConfig → Exn → Type 0
  Unwritten config e =
      ((w : W) × ((sys.mkdir (sys.parent config.service.pid_file) w).0 ≡ raise e))
      ⊎ ((w : W) × ((sys.write_pid config.service.pid_file w).0 ≡ raise e))
      ⊎ ((w : W) × ((sys.set_level config.service.log_level w).0 ≡ raise e))

  abbrev pub Followed : GatewayConfig → Option (Result (Unit {0})) → Type 0
  Followed config outcome =
      (outcome ≡ some (ok tt)) ⊎ ((e : Exn) × (outcome ≡ some (raise e)) × Unwritten config e)

  -- Nothing of the runtime has changed.
  abbrev SameRun : Gateway W → Gateway W → Type 0
  SameRun g g' = (g'.runtime ≡ g.runtime) × (g'.begun ≡ g.begun) × (g'.calls ≡ g.calls)

  abbrev Ended : GatewayConfig → Gateway W → Option (Result (Unit {0})) × Gateway W → Type 0
  Ended config g end = Followed config end.0 × SameRun g end.1

  abbrev Ends : GatewayConfig → Gateway W → Exec (Gateway W) (Unit {0}) → Type 0
  Ends config g call = (s : Gateway W) → SameRun g s → Ended config g (call s)

  on_world-Ends :
      (config : GatewayConfig) (g : Gateway W) (act : W → Result (Unit {0}) × W)
      → ((e : Exn) (w : W) → (act w).0 ≡ raise e → Unwritten config e)
      → Ends config g (on_world sys act)
  on_world-Ends config g act why s same = elim (Result-cases (act s.world).0) [
    | inl (tt, h) ↦ (inl (ap some h), same)
    | inr (e, h) ↦ (inr (e, ap some h, why e s.world h), same)
  ]

  Ends-bind :
      (config : GatewayConfig) (g : Gateway W) (call : Exec (Gateway W) (Unit {0}))
      (next : Unit {0} → Exec (Gateway W) (Unit {0}))
      → Ends config g call
      → Ends config g (next tt)
      → Ends config g (call >>= next)
  unfolding ◌>>=◌
  Ends-bind config g call next h k s same = go (call s) (h s same)
    where
      go :
          (end : Option (Result (Unit {0})) × Gateway W)
          → Ended config g end
          → Ended config g (((λ (t : Gateway W). end) >>= next) s)
      go (some (ok tt), t) e = k t e.1
      go (some (raise x), t) e = e
      go (none, t) (inl bad, e) = absurd (cc bad)
      go (none, t) (inr (x, bad, why), e) = absurd (cc bad)

  -- The pid file and the logging leave the runtime as it is.
  followed-Ended :
      (g : Gateway W) (config : GatewayConfig)
      → Ends config g
          (write_pid_file sys config >> on_world sys (sys.set_level config.service.log_level))
  unfolding write_pid_file
  followed-Ended g config =
      let level = config.service.log_level in
      let dir = sys.parent config.service.pid_file in
      let file = config.service.pid_file in
      Ends-bind config g _ _
        (Ends-bind config g (on_world sys (sys.mkdir dir)) _
          (on_world-Ends config g (sys.mkdir dir) (λ e w h. inl (w, h)))
          (Ends-bind config g (on_world sys (sys.write_pid file)) _
            (on_world-Ends config g (sys.write_pid file) (λ e w h. inr (inl (w, h))))
            (λ s same. (inl refl, same))))
        (on_world-Ends config g (sys.set_level level) (λ e w h. inr (inr (w, h))))

  -- If it returns, the application knows its pid file.
  followed-pid_file :
      (g : Gateway W) (config : GatewayConfig)
      → let end =
          (write_pid_file sys config >> on_world sys (sys.set_level config.service.log_level)) g in
        end.0 ≡ some (ok tt) → end.1.pid_file ≡ some config.service.pid_file
  unfolding write_pid_file
  followed-pid_file g config e =
      let call =
        write_pid_file sys config >> on_world sys (sys.set_level config.service.log_level) in
      let (done, s1, first, last) = bind-eq-ok (write_pid_file sys config) _ g (ends call e) in
      let (done2, s2, second, third) =
        bind-eq-ok (on_world sys (sys.mkdir (sys.parent config.service.pid_file))) _ g first in
      let (done3, s3, fourth, fifth) =
        bind-eq-ok (on_world sys (sys.write_pid config.service.pid_file)) _ s2 third in
      let known : s1.pid_file ≡ some config.service.pid_file =
        ap (λ (x : Option (Result (Unit {0})) × Gateway W). x.1.pid_file) (sym fifth) in
      ap (λ (x : Option (Result (Unit {0})) × Gateway W). x.1.pid_file) (sym last) ∙ known
    where
      ends :
          (call : Exec (Gateway W) (Unit {0}))
          → (call g).0 ≡ some (ok tt)
          → call g ≡ (some (ok tt), (call g).1)
      ends call h = ap (λ o. (o, (call g).1)) h

  -- What `if initial: raise` makes of an exception that was logged
  abbrev pub swallowed : Bool → Exn → Result (Unit {0})
  swallowed true e = raise e
  swallowed false e = ok tt

  -- The configuration that is read
  abbrev pub Reads : Option String → Gateway W → GatewayConfig → Type 0
  Reads path g config = (sys.read_config (config_path sys path) g.world).0 ≡ ok config

  -- How a reload ends: the configuration is refused and nothing changes; the directory for the state
  -- cannot be made, which is raised, and nothing else changes; the old runtime is taken down and the
  -- new one cannot be started; or the new one has taken its place.
  pub data Reloaded (path : Option String) (initial : Bool) (g : Gateway W)
      (end : Option (Result (Unit {0})) × Gateway W) : Type 0 where
    kept :
        (e : Exn) (w : W)
        → (sys.read_config (config_path sys path) g.world).0 ≡ raise e
        → end ≡ (some (swallowed initial e), record g { world = w })
        → Reloaded path initial g end
    refused :
        (config : GatewayConfig) (e : Exn) (w : W)
        → Reads path g config
        → sys.mkdir
            (sys.expanduser config.service.state_dir)
            (sys.read_config (config_path sys path) g.world).1
          ≡ (raise e, w)
        → end ≡ (some (raise e), record g { world = w })
        → Reloaded path initial g end
    down :
        (e : Exn) (config full : GatewayConfig) (made : List Call) (w : W)
        → Reads path g config
        → Expands config full
        → Failed sys e
        → IsPrefix made (startup g.begun full)
        → end ≡ (
          some (swallowed initial e),
          record g {
            runtime = none;
            begun = g.begun + 1;
            calls = (g.calls ++ takedown g.runtime) ++ made;
            world = w;
          },
        )
        → Reloaded path initial g end
    replaced :
        (config full : GatewayConfig)
        → Reads path g config
        → Expands config full
        → Followed full end.0
        → (end.0 ≡ some (ok tt) → end.1.pid_file ≡ some full.service.pid_file)
        → end.1.runtime ≡ some (bundle_of g.begun full)
        → end.1.begun ≡ g.begun + 1
        → end.1.calls ≡ (g.calls ++ takedown g.runtime) ++ startup g.begun full
        → Reloaded path initial g end

  -- The state in which the old runtime is down
  abbrev Down : Gateway W → W → Gateway W
  Down g w = record g { runtime = none; calls = g.calls ++ takedown g.runtime; world = w }

  installed_raise :
      (initial : Bool) (e : Exn) (g : Gateway W)
      → installed sys initial (raise e) g ≡ (some (swallowed initial e), g)
  unfolding installed
  installed_raise true e g = refl
  installed_raise false e g = refl

  loaded_raise :
      (initial : Bool) (e : Exn) (g : Gateway W)
      → loaded sys initial (raise e) g ≡ (some (swallowed initial e), g)
  unfolding loaded
  loaded_raise true e g = refl
  loaded_raise false e g = refl

  module _ (path : Option String) (initial : Bool) where
    installed-Reloaded :
        (g : Gateway W) (read config : GatewayConfig) (w : W)
        → Reads path g read
        → Expands read config
        → Started sys
            (record (Down g w) { begun = g.begun + 1 })
            (startup g.begun config)
            (bundle_of g.begun config)
            (start_runtime sys config (Down g w))
        → Reloaded path initial g
            ((attempt (start_runtime sys config) >>= installed sys initial) (Down g w))
    installed-Reloaded g read config w rd ex (broken x made w3 f p e) =
        down x read config made w3 rd ex f p (
          bind_attempt (start_runtime sys config) (installed sys initial) e
          ∙ installed_raise initial x _)
    installed-Reloaded g read config w rd ex (up w3 e) =
        let r = bundle_of g.begun config in
        let g4 : Gateway W = record g {
          runtime = some r;
          begun = g.begun + 1;
          calls = (g.calls ++ takedown g.runtime) ++ startup g.begun config;
          world = w3;
        } in
        let kept = followed-Ended g4 r.config g4 (refl, refl, refl) in
        subst (Reloaded path initial g)
          (sym
            (bind_attempt (start_runtime sys config) (installed sys initial) e ∙ installed_ok r _))
          (replaced read config rd ex kept.0 (followed-pid_file g4 r.config) kept.1.0 kept.1.1
            kept.1.2)
      where
        installed_ok :
            (r : RuntimeBundle) (s : Gateway W)
            → installed sys initial (ok r) s
              ≡ (write_pid_file sys r.config
                    >> on_world sys (sys.set_level r.config.service.log_level))
                  (record s { runtime = some r })
        installed_ok r s = unfold installed ◌>>=◌ in refl

    restarted-Reloaded :
        (g : Gateway W) (w : W) (read config : GatewayConfig)
        → Reads path g read
        → Expands read config
        → Reloaded path initial g (
            (stop_runtime sys >> (attempt (start_runtime sys config) >>= installed sys initial))
              (record g { world = w }))
    restarted-Reloaded g w read config rd ex =
        let (w2, e) = stop_runtime-takedown sys (record g { world = w }) in
        subst (Reloaded path initial g) (sym (bind_ok (stop_runtime sys) _ e))
          (installed-Reloaded g read config w2 rd ex (start_runtime-Started sys config (Down g w2)))

    -- The state directory is made, or not.
    made-Reloaded :
        (g : Gateway W) (read config : GatewayConfig) (w : W) (end : Result (Unit {0}) × W)
        → Reads path g read
        → Expands read config
        → sys.mkdir
            (sys.expanduser read.service.state_dir)
            (sys.read_config (config_path sys path) g.world).1
          ≡ end
        → Reloaded path initial g (
            ((λ (s : Gateway W). (some end.0, record s { world = end.1 }))
                >> (stop_runtime sys
                    >> (attempt (start_runtime sys config) >>= installed sys initial)))
              (record g { world = w }))
    unfolding ◌>>=◌
    made-Reloaded g read config w (raise e, w1) rd ex why = refused read e w1 rd why refl
    made-Reloaded g read config w (ok tt, w1) rd ex why = restarted-Reloaded g w1 read config rd ex

    loaded-Reloaded :
        (g : Gateway W) (outcome : Result GatewayConfig)
        → (sys.read_config (config_path sys path) g.world).0 ≡ outcome
        → Reloaded path initial g (
            loaded sys initial outcome
              (record g { world = (sys.read_config (config_path sys path) g.world).1 }))
    unfolding loaded installed ◌>>=◌
    loaded-Reloaded g (raise e) h =
        kept e (sys.read_config (config_path sys path) g.world).1 h (loaded_raise initial e _)
    loaded-Reloaded g (ok config) h =
        let w = (sys.read_config (config_path sys path) g.world).1 in
        made-Reloaded g config (expanded sys config) w
          (sys.mkdir (sys.expanduser config.service.state_dir) w) h
          (refl, refl, refl, refl, refl, refl, refl, refl) refl

    pub reload_runtime-Reloaded :
        (g : Gateway W) → Reloaded path initial g (reload_runtime sys path initial g)
    unfolding reload_runtime load_config
    reload_runtime-Reloaded g =
        subst (Reloaded path initial g) (sym (bind_attempt (load_config sys path) _ refl))
          (loaded-Reloaded g _ refl)
