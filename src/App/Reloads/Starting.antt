-- ===== src/App/Reloads/Starting.antt =====
-- How a start of a runtime ends: all of its calls were made, or those up to the one that failed.
use modbusgw.Base.{
  ℕ, ◌+◌, List, [], ◌∷◌, ◌++◌, Option, some, String, Exn, Result, ok, raise, ◌≡◌, refl, ap, ◌∙◌,
  inl, inr, ◌⊎◌,
}
use mathlib.Core.List.{append-nil, append_assoc}
use modbusgw.Base.Exec.{Exec, pure, ◌>>=◌}
use modbusgw.Base.Exec.Runs.{bind_ok, bind_raise}
use modbusgw.Bus.{new_bus}
use modbusgw.Router.Config.{build_router_from_config}
use modbusgw.App.{
  GatewayConfig, FrontendConfig, frontend_id, Component, dispatcher, responder, frontend, Call,
  start, store, RuntimeBundle, System, Gateway, on_world, perform, start_frontends, start_runtime,
  build_backends,
}

abbrev pub frontend_starts : ℕ → List FrontendConfig → List Call
frontend_starts n [] = []
frontend_starts n (cfg ∷ rest) = start (frontend n cfg) ∷ frontend_starts n rest

-- The calls that start a runtime, in order
abbrev pub startup : ℕ → GatewayConfig → List Call
startup n config = start (dispatcher n) ∷ start (responder n) ∷ frontend_starts n config.frontends

-- `frontend_map` when all its frontends are built
abbrev pub table_of :
    ℕ → List (String × Component) → List FrontendConfig → List (String × Component)
table_of n table [] = table
table_of n table (cfg ∷ rest) = table_of n (store (frontend_id cfg) (frontend n cfg) table) rest

abbrev pub bundle_of : ℕ → GatewayConfig → RuntimeBundle
bundle_of n config = record {
  number = n;
  config = config;
  bus = new_bus config.request_queue_size;
  router = build_router_from_config config.routes;
  frontends = table_of n [] config.frontends;
  backends = build_backends n [] config.backends;
}

abbrev pub IsPrefix : List Call → List Call → Type 0
IsPrefix xs ys = (rest : List Call) × (xs ++ rest ≡ ys)

module _ {W : Type 0} (sys : System W) where
  -- A start raises what a call on a component or a constructor raised.
  abbrev pub Failed : Exn → Type 0
  Failed e =
      ((c : Component) × (w : W) × ((sys.answer (start c) w).0 ≡ raise e))
      ⊎ ((cfg : FrontendConfig) × (w : W) × ((sys.construct cfg w).0 ≡ raise e))

  -- How a start ends: with a value and all of its calls made, or with an exception and some of the
  -- calls, from the first on.
  pub data Started {A : Type 0} (g : Gateway W) (all : List Call) (value : A)
      (end : Option (Result A) × Gateway W) : Type 0 where
    up :
        (w : W)
        → end ≡ (some (ok value), record g { calls = g.calls ++ all; world = w })
        → Started g all value end
    broken :
        (e : Exn) (made : List Call) (w : W)
        → Failed e
        → IsPrefix made all
        → end ≡ (some (raise e), record g { calls = g.calls ++ made; world = w })
        → Started g all value end

  Started-cons :
      {A : Type 0} (g : Gateway W) (c : Call) (w : W) (all : List Call) (value : A)
      (end : Option (Result A) × Gateway W)
      → Started (record g { calls = g.calls ++ (c ∷ []); world = w }) all value end
      → Started g (c ∷ all) value end
  Started-cons g c w all value end (up w' e) = up w' (
      e
      ∙ ap (λ l. (some (ok value), record g { calls = l; world = w' }))
          (append_assoc g.calls (c ∷ []) all))
  Started-cons g c w all value end (broken x made w' f (rest, p) e) =
      broken x (c ∷ made) w' f (rest, ap (λ l. c ∷ l) p)
        (e
          ∙ ap (λ l. (some (raise x), record g { calls = l; world = w' }))
              (append_assoc g.calls (c ∷ []) made))

  -- A call on a component, and what follows it.
  perform-Started :
      {A : Type 0} (g : Gateway W) (c : Component) (next : Unit {0} → Exec (Gateway W) A)
      (all : List Call) (value : A)
      → ((w : W)
          → Started
              (record g { calls = g.calls ++ (start c ∷ []); world = w })
              all
              value
              (next tt (record g { calls = g.calls ++ (start c ∷ []); world = w })))
      → Started g (start c ∷ all) value ((perform sys (start c) >>= next) g)
  unfolding ◌>>=◌
  perform-Started {A} g c next all value h = go (sys.answer (start c) g.world) refl
    where
      go :
          (end : Result (Unit {0}) × W)
          → sys.answer (start c) g.world ≡ end
          → Started g (start c ∷ all) value (
              ((λ (s : Gateway W).
                    (some end.0, record g { calls = g.calls ++ (start c ∷ []); world = end.1 }))
                  >>= next)
                g)
      go (raise e, w) p =
          broken e (start c ∷ []) w (inl (c, g.world, ap (λ x. x.0) p)) (all, refl) refl
      go (ok tt, w) p = Started-cons g (start c) w all value _ (h w)

  -- The constructor of a frontend, and what follows it.
  construct-Started :
      {A : Type 0} (g : Gateway W) (cfg : FrontendConfig) (next : Unit {0} → Exec (Gateway W) A)
      (all : List Call) (value : A)
      → ((b : Unit {0}) (w : W)
          → Started (record g { world = w }) all value (next b (record g { world = w })))
      → Started g all value ((on_world sys (sys.construct cfg) >>= next) g)
  unfolding ◌>>=◌
  construct-Started {A} g cfg next all value h = go (sys.construct cfg g.world) refl
    where
      go :
          (end : Result (Unit {0}) × W)
          → sys.construct cfg g.world ≡ end
          → Started g all value
              (((λ (s : Gateway W). (some end.0, record g { world = end.1 })) >>= next) g)
      go (raise e, w) p =
          broken e [] w (inr (cfg, g.world, ap (λ x. x.0) p)) (all, refl) (rw append-nil)
      go (ok b, w) p = elim (h b w) [
        | up w' e ↦ up w' e
        | broken x made w' f p e ↦ broken x made w' f p e
      ]

  start_frontends-Started :
      (n : ℕ) (table : List (String × Component)) (cfgs : List FrontendConfig) (g : Gateway W)
      → Started g
          (frontend_starts n cfgs)
          (table_of n table cfgs)
          (start_frontends sys n table cfgs g)
  unfolding start_frontends
  start_frontends-Started n table [] g = up g.world (rw append-nil)
  start_frontends-Started n table (cfg ∷ rest) g = construct-Started g cfg _ _ _ (λ b w.
      perform-Started (record g { world = w }) (frontend n cfg) _ _ _
        (λ w'.
          start_frontends-Started n (store (frontend_id cfg) (frontend n cfg) table) rest
            (record g { calls = g.calls ++ (start (frontend n cfg) ∷ []); world = w' })))

  Started-map :
      {A B : Type 0} (g : Gateway W) (all : List Call) (value : A) (call : Exec (Gateway W) A)
      (f : A → B) {s : Gateway W}
      → Started g all value (call s)
      → Started g all (f value) ((call >>= λ a. pure (f a)) s)
  Started-map g all value call f (up w e) = up w (bind_ok call (λ a. pure (f a)) e)
  Started-map g all value call f (broken x made w failed p e) =
      broken x made w failed p (bind_raise call (λ a. pure (f a)) e)

  pub start_runtime-Started :
      (config : GatewayConfig) (g : Gateway W)
      → Started
          (record g { begun = g.begun + 1 })
          (startup g.begun config)
          (bundle_of g.begun config)
          (start_runtime sys config g)
  unfolding start_runtime ◌>>=◌
  start_runtime-Started config g =
      perform-Started (record g { begun = g.begun + 1 }) (dispatcher g.begun) _ _ _
        (λ w.
          perform-Started
            (record g {
              begun = g.begun + 1;
              calls = g.calls ++ (start (dispatcher g.begun) ∷ []);
              world = w;
            })
            (responder g.begun) _ _ _
            (λ w'.
              let g' : Gateway W = record g {
                begun = g.begun + 1;
                calls =
                    (g.calls ++ (start (dispatcher g.begun) ∷ []))
                    ++ (start (responder g.begun) ∷ []);
                world = w';
              } in
              Started-map g' _ _ (start_frontends sys g.begun [] config.frontends)
                (λ table. record (bundle_of g.begun config) { frontends = table })
                (start_frontends-Started g.begun [] config.frontends g')))
