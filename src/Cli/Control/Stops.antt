-- ===== src/Cli/Control/Stops.antt =====
-- What `stop` sends, and when it returns.
use modbusgw.Base.{
  Bool, true, false, not, List, [], ◌∷◌, ◌++◌, Option, none, some, String, if◌then◌else◌, inl, inr,
  ◌⊎◌, Result, ok, raise, cli_error, ◌≡◌, refl, ap, ◌∙◌,
}
use mathlib.Core.List.{append_assoc}
use modbusgw.Base.Exec.{pure, fail, ◌>>=◌, ◌>>◌}
use modbusgw.Base.Exec.Runs.{Ends, Ends-map, Ends-then, Ends-try, Ends-settled}
use modbusgw.App.{GatewayConfig, System, config_path}
use modbusgw.Cli.{
  Json, str_value, object, other, Sig, sigterm, sigkill, Host, Service, named, remove, send,
  read_pid_file, pid_is_running, wait_for_exit,
}
use modbusgw.Cli.Control.{
  cached, load_config, from_json, fallback, configured, pid_file_path, kill_hard, terminate,
  stop_found, stop_process, stop,
}
use modbusgw.Cli.Looks.{
  SameCalls, Found, Seen, Gone, pid_is_running-Found, wait_for_exit-Looks, Quiet, remove-Quiet,
  read_pid_file-Quiet,
}
use modbusgw.Base.Texts.{Text}
use modbusgw.Cli.Numbers.{ℤ}

module _ {W T : Type 0} (sys : System W) (host : Host W T) (path : String) where
  -- The same calls, and what keeps them
  abbrev Same : Service W → Service W → Type 0
  Same = SameCalls sys host path

  abbrev Keeps : Service W → {A : Type 0} → Option (Result A) × Service W → Type 0
  Keeps o = Quiet sys host path o

  pub load_config-Quiet : (o s : Service W) → Same o s → Keeps o (load_config sys host path s)
  unfolding load_config
  load_config-Quiet o s same = go s.config
    where
      go : (c : Option GatewayConfig) → Keeps o (cached sys host path c s)
      go (some config) = unfold cached in same
      go none =
          unfold cached in
          Ends-settled (Same o) (sys.read_config (config_path sys (some path)) s.world).0 _ same

  from_json-Quiet :
      (j : Option Json) (o s : Service W) → Same o s → Keeps o (from_json sys host path j s)
  unfolding from_json
  from_json-Quiet none o s same = same
  from_json-Quiet (some (object fields)) o s same = same
  from_json-Quiet (some (str_value t)) o s same = same
  from_json-Quiet (some other) o s same = same

  fallback-Quiet :
      (r : Result Text) (o s : Service W) → Same o s → Keeps o (fallback sys host path r s)
  unfolding fallback
  fallback-Quiet (raise e) o s same = same
  fallback-Quiet (ok content) o s same = from_json-Quiet (host.loads content) o s same

  configured-Quiet :
      (r : Result GatewayConfig) (o s : Service W)
      → Same o s
      → Keeps o (configured sys host path r s)
  unfolding configured ◌>>=◌
  configured-Quiet (ok config) o s same = same
  configured-Quiet (raise e) o s same =
      fallback-Quiet (host.read_text (sys.expanduser path) s.world).0 o
        (record s { world = (host.read_text (sys.expanduser path) s.world).1 }) same

  pid_file_path-Quiet : (o s : Service W) → Same o s → Keeps o (pid_file_path sys host path s)
  unfolding pid_file_path
  pid_file_path-Quiet o s same =
      Ends-try (λ c s'. Same o s') (λ f s'. Same o s') (Same o) (Same o) (load_config sys host path)
        _ s (load_config-Quiet o s same) (λ c s' h. configured-Quiet (ok c) o s' h)
        (λ e s' h. configured-Quiet (raise e) o s' h)

  -- The signals that `stop` sends: none, or SIGTERM to a process that it has seen, or that and
  -- SIGKILL; and it begins no run.
  pub data Sent (o s : Service W) : Type 0 where
    silent : Same o s → Sent o s
    asked :
        (pid : ℤ)
        → Seen sys host path pid
        → s.signals ≡ o.signals ++ ((pid, sigterm) ∷ [])
        → s.launches ≡ o.launches
        → Sent o s
    killed :
        (pid : ℤ)
        → Seen sys host path pid
        → s.signals ≡ o.signals ++ ((pid, sigterm) ∷ (pid, sigkill) ∷ [])
        → s.launches ≡ o.launches
        → Sent o s

  -- The process to which it has sent one or both is gone.
  pub data Over (o s : Service W) : Type 0 where
    over :
        (pid : ℤ) (tail : List (ℤ × Sig))
        → Seen sys host path pid
        → Gone sys host path pid
        → (tail ≡ (pid, sigterm) ∷ []) ⊎ (tail ≡ (pid, sigterm) ∷ (pid, sigkill) ∷ [])
        → s.signals ≡ o.signals ++ tail
        → s.launches ≡ o.launches
        → Over o s

  -- After the first signal to a process, the state it left as the new origin
  abbrev Asked : ℤ → Service W → Service W → Type 0
  Asked pid o o' = (o'.signals ≡ o.signals ++ ((pid, sigterm) ∷ [])) × (o'.launches ≡ o.launches)

  Over-ext : {o s s' : Service W} → Over o s → Same s s' → Over o s'
  Over-ext (over pid tail seen gone which a b) (c, d) =
      over pid tail seen gone which (c ∙ a) (d ∙ b)

  Over-Sent : {o s : Service W} → Over o s → Sent o s
  Over-Sent {o} (over pid tail seen gone (inl e) a b) =
      asked pid seen (a ∙ ap (λ t. o.signals ++ t) e) b
  Over-Sent {o} (over pid tail seen gone (inr e) a b) =
      killed pid seen (a ∙ ap (λ t. o.signals ++ t) e) b

  -- A signal is sent.
  abbrev Appended : ℤ → Sig → Service W → Service W → Type 0
  Appended pid sig s s' = (s'.signals ≡ s.signals ++ ((pid, sig) ∷ [])) × (s'.launches ≡ s.launches)

  send-Ends :
      (pid : ℤ) (sig : Sig) (s : Service W)
      → Ends (λ done. Appended pid sig s) (Appended pid sig s) (send sys host path pid sig s)
  unfolding send
  send-Ends pid sig s =
      Ends-settled (Appended pid sig s) (host.kill pid sig s.world).0 _ (refl, refl)

  Sent-Asked :
      (pid : ℤ) (o o' s : Service W)
      → Seen sys host path pid
      → Asked pid o o'
      → Same o' s
      → Sent o s
  Sent-Asked pid o o' s seen (a, b) (c, d) = asked pid seen (c ∙ a) (d ∙ b)

  module _ (pid : ℤ) (o o' : Service W) (seen : Seen sys host path pid)
      (first : Asked pid o o') where
    both_sent :
        (s s1 s' : Service W)
        → Same o' s
        → Appended pid sigkill s s1
        → Same s1 s'
        → (s'.signals ≡ o.signals ++ ((pid, sigterm) ∷ (pid, sigkill) ∷ []))
          × (s'.launches ≡ o.launches)
    both_sent s s1 s' (c, d) (e, f) (g, h) = (
      g
          ∙ (e
              ∙ (ap (λ l. l ++ ((pid, sigkill) ∷ [])) (c ∙ first.0)
                  ∙ append_assoc o.signals ((pid, sigterm) ∷ []) ((pid, sigkill) ∷ []))),
      h ∙ (f ∙ (d ∙ first.1)),
    )

    late-Ends :
        (s s1 s' : Service W) (late : Bool)
        → Same o' s
        → Appended pid sigkill s s1
        → Found sys host path pid (not late) × Same s1 s'
        → Ends
            (λ done t. Over o t)
            (Sent o)
            ((if late then pure tt else fail (cli_error "Gateway did not exit in time")) s')
    late-Ends s s1 s' true a b (look, c) =
        let (d, e) = both_sent s s1 s' a b c in
        over pid ((pid, sigterm) ∷ (pid, sigkill) ∷ []) seen look (inr refl) d e
    late-Ends s s1 s' false a b (look, c) =
        let (d, e) = both_sent s s1 s' a b c in killed pid seen d e

    killed_hard :
        (s s1 s' : Service W) → Same o' s → Appended pid sigkill s s1 → Same s1 s' → Sent o s'
    killed_hard s s1 s' a b c = let (d, e) = both_sent s s1 s' a b c in killed pid seen d e

  -- The second signal, where the process has not gone, and its end
  kill_hard-Ends :
      (pid : ℤ) (o o' : Service W) (gone : Bool) (s : Service W)
      → Seen sys host path pid
      → Asked pid o o'
      → Found sys host path pid (not gone) × Same o' s
      → Ends (λ done s'. Over o s') (Sent o) (kill_hard sys host path pid gone s)
  unfolding kill_hard
  kill_hard-Ends pid o o' true s seen (a, b) (look, (c, d)) =
      over pid ((pid, sigterm) ∷ []) seen look (inl refl) (c ∙ a) (d ∙ b)
  kill_hard-Ends pid o o' false s seen first (look, same) =
      Ends-then (λ done. Appended pid sigkill s) (λ done s'. Over o s') (Appended pid sigkill s)
        (Sent o) (send sys host path pid sigkill) _ s (send-Ends pid sigkill s)
        (λ done s1 h1.
          Ends-then (λ b s'. Found sys host path pid (not b) × Same s1 s') (λ done s'. Over o s')
            (Same s1) (Sent o) (wait_for_exit sys host path pid host.five_seconds) _ s1
            (wait_for_exit-Looks sys host path pid host.five_seconds s1 s1 (refl, refl))
            (λ late s2 h2. late-Ends pid o o' seen first s s1 s2 late same h1 h2)
            (λ s2 h2. killed_hard pid o o' seen first s s1 s2 same h1 h2))
        (λ s1 h1. killed_hard pid o o' seen first s s1 s1 same h1 (refl, refl))

  Asked-first :
      (pid : ℤ) (o s s1 : Service W) → Same o s → Appended pid sigterm s s1 → Asked pid o s1
  Asked-first pid o s s1 (a, b) (c, d) = (c ∙ ap (λ l. l ++ ((pid, sigterm) ∷ [])) a, d ∙ b)

  ended :
      (pid : ℤ) (o o' : Service W) (file : String)
      → Seen sys host path pid
      → Asked pid o o'
      → (gone : Bool) (s : Service W) → Found sys host path pid (not gone) × Same o' s
      → Ends
          (λ done s'. Over o s')
          (Sent o)
          ((kill_hard sys host path pid gone >> remove sys host path file) s)
  ended pid o o' file seen first gone s h =
      Ends-then (λ done s'. Over o s') (λ done s'. Over o s') (Sent o) (Sent o)
        (kill_hard sys host path pid gone) _ s (kill_hard-Ends pid o o' gone s seen first h)
        (λ done s1 h1.
          Ends-map (λ d s'. Same s1 s') (λ d s'. Over o s') (Same s1) (Sent o) _
            (λ d s' same. Over-ext h1 same) (λ s' same. Over-Sent (Over-ext h1 same))
            (remove-Quiet sys host path file s1 s1 (refl, refl)))
        (λ s' h'. h')

  terminate-Ends :
      (timeout : T) (file : String) (pid : ℤ) (o s : Service W)
      → Seen sys host path pid
      → Same o s
      → Ends (λ done s'. Over o s') (Sent o) (terminate sys host path timeout file pid s)
  unfolding terminate
  terminate-Ends timeout file pid o s seen same =
      Ends-then (λ done. Appended pid sigterm s) (λ done s'. Over o s') (Appended pid sigterm s)
        (Sent o) (send sys host path pid sigterm) _ s (send-Ends pid sigterm s)
        (λ done s1 h1.
          Ends-then (λ g s'. Found sys host path pid (not g) × Same s1 s') (λ done s'. Over o s')
            (Same s1) (Sent o) (wait_for_exit sys host path pid timeout) _ s1
            (wait_for_exit-Looks sys host path pid timeout s1 s1 (refl, refl))
            (λ gone s2 h2. ended pid o s1 file seen (Asked-first pid o s s1 same h1) gone s2 h2)
            (λ s2 h2. Sent-Asked pid o s1 s2 seen (Asked-first pid o s s1 same h1) h2))
        (λ s1 h1. Sent-Asked pid o s1 s1 seen (Asked-first pid o s s1 same h1) (refl, refl))

  stop_found-Ends :
      (timeout : T) (file : String) (pid : ℤ) (o : Service W) (running : Bool) (s : Service W)
      → Found sys host path pid running × Same o s
      → Ends (λ done s'. Over o s') (Sent o) (stop_found sys host path timeout file pid running s)
  unfolding stop_found
  stop_found-Ends timeout file pid o true s (seen, same) =
      terminate-Ends timeout file pid o s seen same
  stop_found-Ends timeout file pid o false s (gone, same) =
      Ends-then (λ done s'. Same o s') (λ done s'. Over o s') (Same o) (Sent o)
        (remove sys host path file) _ s (remove-Quiet sys host path file o s same)
        (λ done s' h. silent h) (λ s' h. silent h)

  stop_process-Ends :
      (timeout : T) (file : String) (pid : Option ℤ) (o s : Service W)
      → Same o s
      → Ends (λ done s'. Over o s') (Sent o) (stop_process sys host path timeout file pid s)
  unfolding stop_process
  stop_process-Ends timeout file none o s same = silent same
  stop_process-Ends timeout file (some pid) o s same =
      Ends-then (λ b s'. Found sys host path pid b × Same o s') (λ done s'. Over o s') (Same o)
        (Sent o) (pid_is_running sys host path pid) _ s
        (pid_is_running-Found sys host path pid o s same) (stop_found-Ends timeout file pid o)
        (λ s' h. silent h)

  -- `stop` returns or raises. If it returns, it has seen a process, has sent it SIGTERM, and perhaps
  -- SIGKILL after that, and has found it gone. If it raises, it has sent no signal, or SIGTERM, or
  -- SIGTERM and then SIGKILL, to a process that it had seen. It begins no run.
  pub stop-Ends :
      (timeout : T) (s : Service W)
      → Ends (λ done s'. Over s s') (Sent s) (stop sys host path timeout s)
  unfolding stop
  stop-Ends timeout s =
      Ends-then (λ f s'. Same s s') (λ done s'. Over s s') (Same s) (Sent s)
        (pid_file_path sys host path) _ s (pid_file_path-Quiet s s (refl, refl))
        (λ file s1 h1.
          Ends-then (λ p s'. Same s s') (λ done s'. Over s s') (Same s) (Sent s)
            (read_pid_file sys host path file) _ s1 (read_pid_file-Quiet sys host path file s s1 h1)
            (λ pid s2 h2. stop_process-Ends timeout file (named pid) s s2 h2) (λ s' h. silent h))
        (λ s' h. silent h)
