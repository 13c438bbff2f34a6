-- ===== src/App/Waiting.antt =====
-- What an application without a runtime hears: a request to shut down, and nothing else.
use modbusgw.Base.{true, false, List, [], ◌∷◌, All, Option, none, String, ◌≡◌, refl}
use modbusgw.Base.Exec.{Exec}
use modbusgw.App.{System, Gateway, Signal, shutdown, reload, deliver, round, main_loop}

abbrev pub IsReload : Signal → Type 0
IsReload shutdown = ⊥
IsReload reload = Unit {0}

module _ {W : Type 0} (sys : System W) where
  -- What a gateway without a runtime keeps while it gets no request to shut down.
  abbrev pub Deaf : Gateway W → Gateway W → Type 0
  Deaf g g' =
      (g'.runtime ≡ none) × (g'.stop_event ≡ false) × (g'.calls ≡ g.calls) × (g'.world ≡ g.world)

  deliver-Deaf :
      (g : Gateway W) (batch : List Signal) (s : Gateway W)
      → All IsReload batch
      → Deaf g s
      → Deaf g (deliver sys batch s)
  unfolding deliver
  deliver-Deaf g [] s h d = d
  deliver-Deaf g (shutdown ∷ rest) s h d = absurd h.0
  deliver-Deaf g (reload ∷ rest) s h d =
      deliver-Deaf g rest (record s { reload_event = true }) h.1 d

  -- Without a runtime and a request to shut down, a round only waits on.
  round_waits :
      (path : Option String) (later : Exec (Gateway W) (Unit {0})) (s : Gateway W)
      → s.runtime ≡ none
      → s.stop_event ≡ false
      → round sys path later s ≡ later s
  unfolding round
  round_waits path later s r e = rw (e, r)

  Deaf-loop :
      (path : Option String) (g : Gateway W) (batches : List (List Signal)) (s : Gateway W)
      → All (All IsReload) batches
      → Deaf g s
      → ((main_loop sys path batches s).0 ≡ none) × Deaf g (main_loop sys path batches s).1
  unfolding main_loop
  Deaf-loop path g [] s h d = (refl, d)
  Deaf-loop path g (batch ∷ rest) s h d =
      let s' = deliver sys batch s in
      let d' = deliver-Deaf g batch s h.0 d in
      rw (round_waits path (main_loop sys path rest) s' d'.0 d'.1) (Deaf-loop path g rest s' h.1 d')

  -- An application whose last reload could not start a runtime does not hear another request to
  -- reload: however many come, it goes on waiting, and makes no call and reads no file.
  pub main_loop-Deaf :
      (path : Option String) (g : Gateway W) (batches : List (List Signal))
      → g.runtime ≡ none
      → g.stop_event ≡ false
      → All (All IsReload) batches
      → ((main_loop sys path batches g).0 ≡ none) × Deaf g (main_loop sys path batches g).1
  main_loop-Deaf path g batches r s h = Deaf-loop path g batches g h (r, s, refl, refl)
