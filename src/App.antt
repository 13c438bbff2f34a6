-- ===== src/App.antt =====
-- modbusgw/app.py: the application that builds the runtime from a configuration, replaces it on a
-- reload and takes it down; and modbusgw/config/loader.py. The calls on components are written down
-- in the order in which they are made; how each ends is the system's choice, and so are files,
-- logging and the check of a configuration. Log messages are left out.
pub mod Laws
pub mod Reloads
pub mod Tables
pub mod Waiting
pub mod Sessions
pub mod Runs
mod Tests
use modbusgw.Base.{
  ℕ, ◌+◌, Bool, true, false, ◌&&◌, List, [], ◌∷◌, ◌++◌, map, Option, none, some, String, str_eq,
  if◌then◌else◌, Exn, Result, ok, raise,
}
use modbusgw.Base.Exec.{Exec, pure, fail, lift, attempt, ◌>>=◌, ◌>>◌}
use modbusgw.Bus.{GatewayBus, new_bus}
use modbusgw.Router.{Router}
use modbusgw.Router.Config.{RouteConfig, build_router_from_config}
use modbusgw.Dispatcher.{Message}

-- The parts of the configuration that the application reads itself.
pub record ServiceConfig : Type 0 where
  pub log_level : String
  pub pid_file : String
  pub state_dir : String
  pub log_file : Option String

-- The class of a frontend or backend, and its identifier
pub data FrontendConfig : Type 0 where
  serial_rtu_socket unix_modbus_tcp tcp_modbus_tcp : String → FrontendConfig

pub data BackendConfig : Type 0 where
  pyserial tcp_modbus : String → BackendConfig

pub record GatewayConfig : Type 0 where
  pub service : ServiceConfig
  pub request_queue_size : ℕ
  pub frontends : List FrontendConfig
  pub backends : List BackendConfig
  pub routes : List RouteConfig

abbrev pub frontend_id : FrontendConfig → String
frontend_id (serial_rtu_socket id) = id
frontend_id (unix_modbus_tcp id) = id
frontend_id (tcp_modbus_tcp id) = id

abbrev pub backend_id : BackendConfig → String
backend_id (pyserial id) = id
backend_id (tcp_modbus id) = id

-- The objects of a runtime. The number tells those of one runtime from those of another.
pub data Component : Type 0 where
  dispatcher responder : ℕ → Component
  frontend : ℕ → FrontendConfig → Component
  backend : ℕ → BackendConfig → Component

pub data Call : Type 0 where
  start stop close : Component → Call

-- `runtime[key] = component` of a dictionary
pub store : String → Component → List (String × Component) → List (String × Component)
store key c [] = (key, c) ∷ []
store key c ((k, old) ∷ rest) = if str_eq k key then (k, c) ∷ rest else (k, old) ∷ store key c rest

abbrev pub values : List (String × Component) → List Component
values [] = []
values ((k, c) ∷ rest) = c ∷ values rest

pub record RuntimeBundle : Type 0 where
  pub number : ℕ
  pub config : GatewayConfig
  pub bus : GatewayBus Message
  pub router : Router
  pub frontends : List (String × Component)
  pub backends : List (String × Component)

pub record System (W : Type 0) : Type 0 where
  pub expanduser : String → String
  pub default_config : String
  pub parent : String → String
  -- open, `json.load` and `model_validate`
  pub read_config : String → W → Result GatewayConfig × W
  pub mkdir : String → W → Result (Unit {0}) × W
  pub write_pid : String → W → Result (Unit {0}) × W
  pub exists : String → W → Bool × W
  pub unlink : String → W → Result (Unit {0}) × W
  pub set_level : String → W → Result (Unit {0}) × W
  -- the constructor of a frontend
  pub construct : FrontendConfig → W → Result (Unit {0}) × W
  pub answer : Call → W → Result (Unit {0}) × W

-- The fields of `GatewayApplication`; the number of runtimes that were begun; the calls made on
-- components so far; the world outside.
pub record Gateway (W : Type 0) : Type 0 where
  pub runtime : Option RuntimeBundle
  pub stop_event : Bool
  pub reload_event : Bool
  pub pid_file : Option String
  pub begun : ℕ
  pub calls : List Call
  pub world : W

-- `_build_backends`
pub build_backends : ℕ → List (String × Component) → List BackendConfig → List (String × Component)
build_backends n built [] = built
build_backends n built (cfg ∷ rest) =
    build_backends n (store (backend_id cfg) (backend n cfg) built) rest

pub data Signal : Type 0 where
  shutdown reload : Signal

module _ {W : Type 0} (sys : System W) where
  abbrev pub App : Type 0 → Type 0
  App A = Exec (Gateway W) A

  abbrev pub on_world : {A : Type 0} → (W → Result A × W) → App A
  on_world act g = let (outcome, w) = act g.world in (some outcome, record g { world = w })

  abbrev pub perform : Call → App (Unit {0})
  perform c g =
      let (outcome, w) = sys.answer c g.world in
      (some outcome, record g { calls = g.calls ++ (c ∷ []); world = w })

  -- `with contextlib.suppress(Exception)`
  abbrev pub suppress : App (Unit {0}) → App (Unit {0})
  suppress call = do attempt call; pure tt

  -- `Path(path).expanduser() if path else DEFAULT_CONFIG`
  abbrev pub config_path : Option String → String
  config_path none = sys.default_config
  config_path (some path) = if str_eq path "" then sys.default_config else sys.expanduser path

  -- `load_config`
  pub load_config : Option String → App GatewayConfig
  load_config path = on_world (sys.read_config (config_path path))

  -- The loop of `_start_runtime` over the frontends, with `_build_frontend`
  pub start_frontends :
      ℕ → List (String × Component) → List FrontendConfig → App (List (String × Component))
  start_frontends n table [] = pure table
  start_frontends n table (cfg ∷ rest) = do
    on_world (sys.construct cfg)
    perform (start (frontend n cfg))
    start_frontends n (store (frontend_id cfg) (frontend n cfg) table) rest

  abbrev begin : App ℕ
  begin g = (some (ok g.begun), record g { begun = g.begun + 1 })

  -- `_start_runtime`
  pub start_runtime : GatewayConfig → App RuntimeBundle
  start_runtime config = do
    n ← begin
    perform (start (dispatcher n))
    perform (start (responder n))
    table ← start_frontends n [] config.frontends
    pure (record {
      number = n;
      config = config;
      bus = new_bus config.request_queue_size;
      router = build_router_from_config config.routes;
      frontends = table;
      backends = build_backends n [] config.backends;
    })

  pub stop_all : List Component → App (Unit {0})
  stop_all [] = pure tt
  stop_all (c ∷ rest) = do suppress (perform (stop c)); stop_all rest

  -- `getattr(backend, 'close', None)`: a serial backend has none
  pub close_backend : Component → App (Unit {0})
  close_backend (backend n (tcp_modbus id)) = suppress (perform (close (backend n (tcp_modbus id))))
  close_backend _ = pure tt

  pub close_all : List Component → App (Unit {0})
  close_all [] = pure tt
  close_all (c ∷ rest) = do close_backend c; close_all rest

  abbrev set_runtime : Option RuntimeBundle → App (Unit {0})
  set_runtime r g = (some (ok tt), record g { runtime = r })

  pub stop_bundle : Option RuntimeBundle → App (Unit {0})
  stop_bundle none = pure tt
  stop_bundle (some r) = do
    set_runtime none
    stop_all (values r.frontends)
    suppress (perform (stop (responder r.number)))
    suppress (perform (stop (dispatcher r.number)))
    close_all (values r.backends)

  -- `_stop_runtime`
  pub stop_runtime : App (Unit {0})
  stop_runtime g = stop_bundle g.runtime g

  abbrev set_pid_file : Option String → App (Unit {0})
  set_pid_file p g = (some (ok tt), record g { pid_file = p })

  -- `_write_pid_file`
  pub write_pid_file : GatewayConfig → App (Unit {0})
  write_pid_file config = do
    on_world (sys.mkdir (sys.parent config.service.pid_file))
    on_world (sys.write_pid config.service.pid_file)
    set_pid_file (some config.service.pid_file)

  pub remove_file : Option String → App (Unit {0})
  remove_file none = pure tt
  remove_file (some path) = do
    there ← on_world (λ w. let (b, w') = sys.exists path w in (ok b, w'))
    if there then suppress (on_world (sys.unlink path)) else pure tt

  -- `_cleanup_pid_file`
  pub cleanup_pid_file : App (Unit {0})
  cleanup_pid_file g = (do remove_file g.pid_file; set_pid_file none) g

  -- `service.state_dir` and `service.pid_file` with the home directory written out
  abbrev pub expanded : GatewayConfig → GatewayConfig
  expanded config = record config {
    service = record config.service {
      pid_file = sys.expanduser config.service.pid_file;
      state_dir = sys.expanduser config.service.state_dir;
    };
  }

  pub installed : Bool → Result RuntimeBundle → App (Unit {0})
  installed initial (raise e) = if initial then fail e else pure tt
  installed initial (ok r) = do
    set_runtime (some r)
    write_pid_file r.config
    on_world (sys.set_level r.config.service.log_level)

  pub loaded : Bool → Result GatewayConfig → App (Unit {0})
  loaded initial (raise e) = if initial then fail e else pure tt
  loaded initial (ok config) = do
    on_world (sys.mkdir (sys.expanduser config.service.state_dir))
    stop_runtime
    started ← attempt (start_runtime (expanded config))
    installed initial started

  -- `_reload_runtime`
  pub reload_runtime : Option String → Bool → App (Unit {0})
  reload_runtime path initial = do outcome ← attempt (load_config path); loaded initial outcome

  -- `request_shutdown` and `request_reload`, by the signals that came in
  pub deliver : List Signal → Gateway W → Gateway W
  deliver [] g = g
  deliver (shutdown ∷ rest) g = deliver rest (record g { stop_event = true })
  deliver (reload ∷ rest) g = deliver rest (record g { reload_event = true })

  abbrev pub is_some : Option RuntimeBundle → Bool
  is_some none = false
  is_some (some r) = true

  abbrev pub clear_reload : App (Unit {0})
  clear_reload g = (some (ok tt), record g { reload_event = false })

  -- One round of `while True`: the application waits for `_stop_event`, and for `_reload_event`
  -- only if it has a runtime.
  pub round : Option String → App (Unit {0}) → App (Unit {0})
  round path later g =
      if g.stop_event
      then (some (ok tt), g)
      else if is_some g.runtime && g.reload_event
      then (do clear_reload; reload_runtime path false; later) g
      else later g

  -- Each batch is the signals that come in before the application looks at its events again; when
  -- none come any more, it waits for ever.
  pub main_loop : Option String → List (List Signal) → App (Unit {0})
  main_loop path [] g = (none, g)
  main_loop path (batch ∷ rest) g = round path (main_loop path rest) (deliver batch g)

  -- `run`
  pub run : Option String → List (List Signal) → App (Unit {0})
  run path batches = do
    reload_runtime path true
    main_loop path batches
    stop_runtime
    cleanup_pid_file

abbrev pub new_application : {W : Type 0} → W → Gateway W
new_application w = record {
  runtime = none;
  stop_event = false;
  reload_event = false;
  pid_file = none;
  begun = 0;
  calls = [];
  world = w;
}
