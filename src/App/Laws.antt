-- ===== src/App/Laws.antt =====
-- What a stop, a reload and a round of the application do, whatever the calls of the system give.
use modbusgw.Base.{List, [], ◌∷◌, ◌++◌, Option, none, some, ok, ◌≡◌, refl, ap, ◌∙◌}
use mathlib.Core.List.{append-nil, append_assoc}
use modbusgw.Base.Exec.{◌>>=◌}
use modbusgw.Base.Exec.Runs.{bind_ok}
use modbusgw.App.{
  pyserial, tcp_modbus, Component, dispatcher, responder, frontend, backend, Call, stop, close,
  values, RuntimeBundle, System, Gateway, stop_all, close_backend, close_all, stop_bundle,
  stop_runtime,
}

-- The calls that close the backends: those over TCP, since a serial backend has no `close`.
abbrev pub closings : List Component → List Call
closings [] = []
closings (backend n (tcp_modbus id) ∷ rest) = close (backend n (tcp_modbus id)) ∷ closings rest
closings (backend n (pyserial id) ∷ rest) = closings rest
closings (dispatcher n ∷ rest) = closings rest
closings (responder n ∷ rest) = closings rest
closings (frontend n cfg ∷ rest) = closings rest

abbrev pub stops : List Component → List Call
stops [] = []
stops (c ∷ rest) = stop c ∷ stops rest

-- The calls that take a runtime down, in order; none if there is none.
abbrev pub takedown : Option RuntimeBundle → List Call
takedown none = []
takedown (some r) =
    stops (values r.frontends)
    ++ (stop (responder r.number) ∷ stop (dispatcher r.number) ∷ closings (values r.backends))

module _ {W : Type 0} (sys : System W) where
  stop_all_lem :
      (cs : List Component) (g : Gateway W)
      → (w : W) × (stop_all sys cs g
          ≡ (some (ok tt), record g { calls = g.calls ++ stops cs; world = w }))
  unfolding stop_all ◌>>=◌
  stop_all_lem [] g = (g.world, rw append-nil)
  stop_all_lem (c ∷ rest) g =
      let g' : Gateway W = record g {
        calls = g.calls ++ (stop c ∷ []);
        world = (sys.answer (stop c) g.world).1;
      } in
      let (w, e) = stop_all_lem rest g' in
      (
        w,
        e
            ∙ ap (λ l. (some (ok tt), record g { calls = l; world = w }))
                (append_assoc g.calls (stop c ∷ []) (stops rest)),
      )

  close_all_lem :
      (cs : List Component) (g : Gateway W)
      → (w : W) × (close_all sys cs g
          ≡ (some (ok tt), record g { calls = g.calls ++ closings cs; world = w }))
  unfolding close_all close_backend ◌>>=◌
  close_all_lem [] g = (g.world, rw append-nil)
  close_all_lem (backend n (tcp_modbus id) ∷ rest) g =
      let c = close (backend n (tcp_modbus id)) in
      let g' : Gateway W = record g {
        calls = g.calls ++ (c ∷ []);
        world = (sys.answer c g.world).1;
      } in
      let (w, e) = close_all_lem rest g' in
      (
        w,
        e
            ∙ ap (λ l. (some (ok tt), record g { calls = l; world = w }))
                (append_assoc g.calls (c ∷ []) (closings rest)),
      )
  close_all_lem (backend n (pyserial id) ∷ rest) g = close_all_lem rest g
  close_all_lem (dispatcher n ∷ rest) g = close_all_lem rest g
  close_all_lem (responder n ∷ rest) g = close_all_lem rest g
  close_all_lem (frontend n cfg ∷ rest) g = close_all_lem rest g

  stop_bundle_lem :
      (r : Option RuntimeBundle) (g : Gateway W)
      → g.runtime ≡ r
      → (w : W) × (stop_bundle sys r g
          ≡ (some (ok tt), record g { runtime = none; calls = g.calls ++ takedown r; world = w }))
  unfolding stop_bundle ◌>>=◌
  stop_bundle_lem none g h = (g.world, rw (append-nil, ← h))
  stop_bundle_lem (some r) g h =
      let g0 : Gateway W = record g { runtime = none } in
      let (w1, e1) = stop_all_lem (values r.frontends) g0 in
      let first = stop (responder r.number) in
      let second = stop (dispatcher r.number) in
      let w2 = (sys.answer first w1).1 in
      let w3 = (sys.answer second w2).1 in
      let down = stops (values r.frontends) in
      let g3 : Gateway W = record g0 {
        calls = ((g.calls ++ down) ++ (first ∷ [])) ++ (second ∷ []);
        world = w3;
      } in
      let (w4, e4) = close_all_lem (values r.backends) g3 in
      (
        w4,
        bind_ok (stop_all sys (values r.frontends)) _ e1
            ∙ e4
            ∙ ap (λ l. (some (ok tt), record g0 { calls = l; world = w4 })) (simp (append_assoc)),
      )

  -- Stopping the runtime always returns, whatever the calls on the components raise. It leaves no
  -- runtime, and has called `stop` on every frontend, then on the responder and the dispatcher, and
  -- then `close` on every backend that has it.
  pub stop_runtime-takedown :
      (g : Gateway W)
      → (w : W) × (stop_runtime sys g ≡ (
        some (ok tt),
        record g { runtime = none; calls = g.calls ++ takedown g.runtime; world = w },
      ))
  unfolding stop_runtime
  stop_runtime-takedown g = stop_bundle_lem g.runtime g refl
