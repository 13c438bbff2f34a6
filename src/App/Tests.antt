-- ===== src/App/Tests.antt =====
-- The theorems on the application at a configuration with one Modbus/TCP frontend and one backend,
-- and a system on which all goes well but what a script of configurations says.
use modbusgw.Base.{
  Bool, true, false, List, [], ◌∷◌, none, some, Result, ok, raise, value_error, ◌≡◌, refl,
}
use modbusgw.App.{
  GatewayConfig, tcp_modbus_tcp, tcp_modbus, pyserial, System, Gateway, reload, stop_runtime,
  main_loop, new_application,
}
use modbusgw.App.Laws.{takedown, stop_runtime-takedown}
use modbusgw.App.Reloads.{bundle_of}
use modbusgw.App.Waiting.{Deaf, main_loop-Deaf}
use modbusgw.App.Sessions.{Sessions}

abbrev config : GatewayConfig
config = record {
  service = record {
    log_level = "INFO";
    pid_file = "gw.pid";
    state_dir = "state";
    log_file = none;
  };
  request_queue_size = 8;
  frontends = tcp_modbus_tcp "f" ∷ [];
  backends = tcp_modbus "b" ∷ pyserial "s" ∷ [];
  routes = [];
}

-- The world is the configurations that are still to be read, and whether there is a pid file.
abbrev Rest : Type 0
Rest = List (Result GatewayConfig) × Bool

abbrev next_config : Rest → Result GatewayConfig × Rest
next_config ([], there) = (raise (value_error "no file"), ([], there))
next_config (c ∷ rest, there) = (c, (rest, there))

abbrev quiet : System Rest
quiet = record {
  expanduser = λ p. p;
  default_config = "default";
  parent = λ p. "dir";
  read_config = λ p w. next_config w;
  mkdir = λ p w. (ok tt, w);
  write_pid = λ p w. (ok tt, (w.0, true));
  exists = λ p w. (w.1, w);
  unlink = λ p w. (ok tt, (w.0, false));
  set_level = λ p w. (ok tt, w);
  construct = λ c w. (ok tt, w);
  answer = λ c w. (ok tt, w);
}

abbrev bad : Result GatewayConfig
bad = raise (value_error "bad")

abbrev serving : Gateway Rest
serving = record (new_application (bad ∷ [], false)) { runtime = some (bundle_of 0 config) }

stop_runtime-takedown_example :
    (w : Rest) × (stop_runtime quiet serving ≡ (
      some (ok tt),
      record serving { runtime = none; calls = takedown (some (bundle_of 0 config)); world = w },
    ))
stop_runtime-takedown_example = stop_runtime-takedown quiet serving

-- Two requests to reload, after a start that failed.
main_loop-Deaf_example :
    ((main_loop quiet none ((reload ∷ []) ∷ (reload ∷ []) ∷ []) (new_application ([], false))).0
      ≡ none)
    × Deaf quiet
        (new_application ([], false))
        (main_loop quiet none ((reload ∷ []) ∷ (reload ∷ []) ∷ []) (new_application ([], false))).1
main_loop-Deaf_example =
    main_loop-Deaf quiet none (new_application ([], false)) ((reload ∷ []) ∷ (reload ∷ []) ∷ [])
      refl refl ((tt, tt), ((tt, tt), tt))
