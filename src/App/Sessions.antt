-- ===== src/App/Sessions.antt =====
-- Whole runs of the application: what is started is stopped.
use modbusgw.Base.{
  ℕ, Bool, true, false, ◌&&◌, List, [], ◌∷◌, ◌++◌, Option, none, some, String, Exn, Result, ok,
  raise, ◌≡◌, refl, ap, subst, sym, ◌∙◌, Bool-cases, if_of_true, if_of_false, inl, inr, ◌⊎◌,
}
use mathlib.Core.List.{append-nil}
use modbusgw.Base.Exec.{Exec, ◌>>◌}
use modbusgw.Base.Exec.Runs.{bind_ok}
use modbusgw.App.{
  GatewayConfig, FrontendConfig, Component, Call, start, System, Gateway, Signal, shutdown, reload,
  reload_runtime, config_path, deliver, is_some, clear_reload, round, main_loop,
}
use modbusgw.App.Laws.{takedown}
use modbusgw.App.Reloads.{
  startup, bundle_of, Reloaded, kept, refused, down, replaced, Failed, Unwritten, swallowed,
  reload_runtime-Reloaded,
}

-- A request to shut down is among the signals.
abbrev pub HasShutdown : List Signal → Type 0
HasShutdown [] = ⊥
HasShutdown (shutdown ∷ rest) = Unit {0}
HasShutdown (reload ∷ rest) = HasShutdown rest

abbrev pub Comes : List (List Signal) → Type 0
Comes [] = ⊥
Comes (batch ∷ rest) = HasShutdown batch ⊎ Comes rest

module _ {W : Type 0} (sys : System W) where
  -- A whole run of each runtime: started in order, and then stopped in order.
  pub data Sessions : List Call → Type 0 where
    nil : Sessions []
    more :
        {before after : List Call} (n : ℕ) (config : GatewayConfig)
        → Sessions before
        → after ≡ (before ++ startup n config) ++ takedown (some (bundle_of n config))
        → Sessions after

  -- The calls of a gateway are whole sessions, but for the one of its runtime, which is started;
  -- then it knows the pid file of that runtime's configuration. `up` is whether it has a runtime.
  pub data Tracks (up : Bool) (g : Gateway W) : Type 0 where
    idle : up ≡ false → g.runtime ≡ none → Sessions g.calls → Tracks up g
    serving :
        {before : List Call} (n : ℕ) (config : GatewayConfig)
        → g.runtime ≡ some (bundle_of n config)
        → Sessions before
        → g.calls ≡ before ++ startup n config
        → g.pid_file ≡ some config.service.pid_file
        → Tracks up g

  pub takedown_calls :
      (g : Gateway W) (before : List Call) (n : ℕ) (config : GatewayConfig)
      → g.runtime ≡ some (bundle_of n config)
      → g.calls ≡ before ++ startup n config
      → g.calls ++ takedown g.runtime
        ≡ (before ++ startup n config) ++ takedown (some (bundle_of n config))
  takedown_calls g before n config r e =
      ap (λ t. g.calls ++ takedown t) r ∙ ap (λ l. l ++ takedown (some (bundle_of n config))) e

  pub Tracks-takedown :
      {up : Bool} {g : Gateway W} → Tracks up g → Sessions (g.calls ++ takedown g.runtime)
  Tracks-takedown {up} {g} (idle off r s) =
      subst Sessions (sym (append-nil g.calls) ∙ ap (λ t. g.calls ++ takedown t) (sym r)) s
  Tracks-takedown {up} {g} (serving n config r s e p) =
      more n config s (takedown_calls g _ n config r e)

  Tracks-ext :
      {up : Bool} (g g' : Gateway W)
      → g'.runtime ≡ g.runtime
      → g'.calls ≡ g.calls
      → g'.pid_file ≡ g.pid_file
      → Tracks up g
      → Tracks up g'
  Tracks-ext g g' p q f (idle off r s) = idle off (p ∙ r) (subst Sessions (sym q) s)
  Tracks-ext g g' p q f (serving n config r s e k) = serving n config (p ∙ r) s (q ∙ e) (f ∙ k)

  -- The system does what it is asked: only a configuration may be refused. A file that was removed
  -- is not there, and looking for a file does not make it.
  pub record IsCalm : Type 0 where
    pub starts : (c : Component) (w : W) → (sys.answer (start c) w).0 ≡ ok tt
    pub constructs : (cfg : FrontendConfig) (w : W) → (sys.construct cfg w).0 ≡ ok tt
    pub mkdirs : (path : String) (w : W) → (sys.mkdir path w).0 ≡ ok tt
    pub writes : (path : String) (w : W) → (sys.write_pid path w).0 ≡ ok tt
    pub removes : (path : String) (w : W) → (sys.exists path (sys.unlink path w).1).0 ≡ false
    pub looks :
        (path : String) (w : W)
        → (sys.exists path w).0 ≡ false
        → (sys.exists path (sys.exists path w).1).0 ≡ false
    pub levels : (level : String) (w : W) → (sys.set_level level w).0 ≡ ok tt

  abbrev Good : Option (Result (Unit {0})) × Gateway W → Type 0
  Good end = (end.0 ≡ some (ok tt)) × Tracks true end.1

  module _ (path : Option String) (later : Exec (Gateway W) (Unit {0})) (s : Gateway W) where
    round_stops : s.stop_event ≡ true → round sys path later s ≡ (some (ok tt), s)
    unfolding round
    round_stops e = if_of_true _ _ e

    module _ (e : s.stop_event ≡ false) where
      round_goes :
          (is_some sys s.runtime && s.reload_event) ≡ false → round sys path later s ≡ later s
      unfolding round
      round_goes h = if_of_false _ _ e ∙ if_of_false _ _ h

      round_reloads :
          (is_some sys s.runtime && s.reload_event) ≡ true
          → round sys path later s
            ≡ (reload_runtime sys path false >> later) (record s { reload_event = false })
      unfolding round
      round_reloads h =
          if_of_false _ _ e
          ∙ (if_of_true _ _ h
              ∙ bind_ok (clear_reload sys) (λ x. reload_runtime sys path false >> later) refl)

  module _ (calm : IsCalm) where
    not-Failed : (e : Exn) → ¬ Failed sys e
    not-Failed e (inl (c, w, h)) = cc (calm.starts c w)
    not-Failed e (inr (cfg, w, h)) = cc (calm.constructs cfg w)

    not-Unwritten : (config : GatewayConfig) (e : Exn) → ¬ Unwritten sys config e
    not-Unwritten config e (inl (w, h)) = cc (calm.mkdirs (sys.parent config.service.pid_file) w)
    not-Unwritten config e (inr (inl (w, h))) = cc (calm.writes config.service.pid_file w)
    not-Unwritten config e (inr (inr (w, h))) = cc (calm.levels config.service.log_level w)

    -- A reload returns, unless it is the first one and the configuration is refused.
    pub Reloaded-Tracks :
        (path : Option String) (initial : Bool) (g : Gateway W)
        (end : Option (Result (Unit {0})) × Gateway W) {up : Bool}
        → Tracks up g
        → ((e : Exn)
            → (sys.read_config (config_path sys path) g.world).0 ≡ raise e
            → (initial ≡ false) × Tracks true g)
        → Reloaded sys path initial g end
        → Good end
    Reloaded-Tracks path initial g end t first (kept e w h p) =
        let (later, tracked) = first e h in
        (
          ap (λ x. x.0) p ∙ ap (λ b. some (swallowed sys b e)) later,
          subst (Tracks true) (ap (λ x. x.1) (sym p))
              (Tracks-ext g (record g { world = w }) refl refl refl tracked),
        )
    Reloaded-Tracks path initial g end t first (refused config e w rd why p) = absurd (
        cc (
          calm.mkdirs (sys.expanduser config.service.state_dir)
              (sys.read_config (config_path sys path) g.world).1,
          ap (λ x. x.0) why,
        ))
    Reloaded-Tracks path initial g end t first (down e config full made w rd ex why pre p) =
        absurd (not-Failed e why)
    Reloaded-Tracks path initial g end t first
          (replaced config full rd ex (inr (e, p, why)) k r n c) =
        absurd (not-Unwritten full e why)
    Reloaded-Tracks path initial g end t first (replaced config full rd ex (inl p) k r n c) =
        (p, serving g.begun full r (Tracks-takedown t) c (k p))

    deliver-Tracks :
        (batch : List Signal) (g : Gateway W) → Tracks true g → Tracks true (deliver sys batch g)
    unfolding deliver
    deliver-Tracks [] g t = t
    deliver-Tracks (shutdown ∷ rest) g t =
        deliver-Tracks rest (record g { stop_event = true }) (Tracks-ext g _ refl refl refl t)
    deliver-Tracks (reload ∷ rest) g t =
        deliver-Tracks rest (record g { reload_event = true }) (Tracks-ext g _ refl refl refl t)

    round-Tracks :
        (path : Option String) (later : Exec (Gateway W) (Unit {0})) (s : Gateway W)
        → Tracks true s
        → s.stop_event ≡ false
        → ((s' : Gateway W) → Tracks true s' → Good (later s'))
        → Good (round sys path later s)
    round-Tracks path later s t e next =
        elim (Bool-cases (is_some sys s.runtime && s.reload_event)) [
          | inr waits ↦ subst Good (sym (round_goes path later s e waits)) (next s t)
          | inl reloads ↦
              let s1 : Gateway W = record s { reload_event = false } in
              let t1 = Tracks-ext s s1 refl refl refl t in
              let (done, t2) =
                Reloaded-Tracks path false s1 _ t1 (λ x h. (refl, t1))
                  (reload_runtime-Reloaded sys path false s1) in
              let s2 = (reload_runtime sys path false s1).1 in
              subst Good
                (sym (
                  round_reloads path later s e reloads
                  ∙ bind_ok (reload_runtime sys path false) (λ x. later) (ap (λ o. (o, s2)) done)))
                (next s2 t2)
        ]

    deliver-stops :
        (batch : List Signal) (g : Gateway W)
        → g.stop_event ≡ true
        → (deliver sys batch g).stop_event ≡ true
    unfolding deliver
    deliver-stops [] g h = h
    deliver-stops (shutdown ∷ rest) g h = deliver-stops rest (record g { stop_event = true }) refl
    deliver-stops (reload ∷ rest) g h = deliver-stops rest (record g { reload_event = true }) h

    deliver-HasShutdown :
        (batch : List Signal) (g : Gateway W)
        → HasShutdown batch
        → (deliver sys batch g).stop_event ≡ true
    unfolding deliver
    deliver-HasShutdown [] g h = absurd h
    deliver-HasShutdown (shutdown ∷ rest) g h =
        deliver-stops rest (record g { stop_event = true }) refl
    deliver-HasShutdown (reload ∷ rest) g h =
        deliver-HasShutdown rest (record g { reload_event = true }) h

    still-Comes :
        (batch : List Signal) (g : Gateway W) (rest : List (List Signal))
        → HasShutdown batch ⊎ Comes rest
        → (deliver sys batch g).stop_event ≡ false
        → Comes rest
    still-Comes batch g rest (inl now) e = absurd (cc (deliver-HasShutdown batch g now))
    still-Comes batch g rest (inr c) e = c

    pub main_loop-Tracks :
        (path : Option String) (batches : List (List Signal)) (g : Gateway W)
        → Tracks true g
        → Comes batches
        → Good (main_loop sys path batches g)
    unfolding main_loop
    main_loop-Tracks path [] g t c = absurd c
    main_loop-Tracks path (batch ∷ rest) g t c =
        let s = deliver sys batch g in
        let t' = deliver-Tracks batch g t in
        let later = main_loop sys path rest in
        elim (Bool-cases s.stop_event) [
          | inl stops ↦ subst Good (sym (round_stops path later s stops)) (refl, t')
          | inr goes ↦
              round-Tracks path later s t' goes
                (λ s' u. main_loop-Tracks path rest s' u (still-Comes batch g rest c goes))
        ]
