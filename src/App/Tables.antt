-- ===== src/App/Tables.antt =====
-- The dictionaries of components: with distinct identifiers, nothing that is built is lost.
use modbusgw.Base.{
  ℕ, false, List, [], ◌∷◌, ◌++◌, map, All, All-append, some, String, str_eq, if_of_false, ◌≡◌, refl,
  ap, sym, ◌∙◌,
}
use mathlib.Core.List.{append-nil, append_assoc}
use modbusgw.App.{
  GatewayConfig, FrontendConfig, BackendConfig, frontend_id, backend_id, Component, dispatcher,
  responder, frontend, backend, stop, store, values, build_backends,
}
use modbusgw.App.Laws.{stops, closings, takedown}
use modbusgw.App.Reloads.{table_of, bundle_of}

abbrev IsFresh : String → List (String × Component) → Type 0
IsFresh key table = All (λ entry. str_eq entry.0 key ≡ false) table

abbrev Differ : String → List String → Type 0
Differ x xs = All (λ y. str_eq x y ≡ false) xs

abbrev pub IsDistinct : List String → Type 0
IsDistinct [] = Unit {0}
IsDistinct (x ∷ xs) = Differ x xs × IsDistinct xs

store-IsFresh :
    (key : String) (c : Component) (table : List (String × Component))
    → IsFresh key table
    → store key c table ≡ table ++ ((key, c) ∷ [])
unfolding store
store-IsFresh key c [] h = refl
store-IsFresh key c ((k, old) ∷ rest) h =
    if_of_false _ _ h.0 ∙ ap (λ t. (k, old) ∷ t) (store-IsFresh key c rest h.1)

values-append : (xs ys : List (String × Component)) → values (xs ++ ys) ≡ values xs ++ values ys
values-append [] ys = refl
values-append ((k, c) ∷ xs) ys = ap (λ t. c ∷ t) (values-append xs ys)

-- The components of a list of configurations, stored one after the other.
module _ {C : Type 0} (key : C → String) (make : C → Component) where
  abbrev stored : List (String × Component) → List C → List (String × Component)
  stored table [] = table
  stored table (cfg ∷ rest) = stored (store (key cfg) (make cfg) table) rest

  abbrev AllFresh : List (String × Component) → List C → Type 0
  AllFresh table cfgs = All (λ cfg. IsFresh (key cfg) table) cfgs

  AllFresh-append :
      (k : String) (c : Component) (table : List (String × Component)) (cfgs : List C)
      → Differ k (map key cfgs)
      → AllFresh table cfgs
      → AllFresh (table ++ ((k, c) ∷ [])) cfgs
  AllFresh-append k c table [] d h = tt
  AllFresh-append k c table (cfg ∷ rest) d h = (
    All-append (λ entry. str_eq entry.0 (key cfg) ≡ false) table ((k, c) ∷ []) h.0 (d.0, tt),
    AllFresh-append k c table rest d.1 h.1,
  )

  values-stored :
      (table : List (String × Component)) (cfgs : List C)
      → IsDistinct (map key cfgs)
      → AllFresh table cfgs
      → values (stored table cfgs) ≡ values table ++ map make cfgs
  values-stored table [] d h = sym (append-nil (values table))
  values-stored table (cfg ∷ rest) d h =
      let longer = table ++ ((key cfg, make cfg) ∷ []) in
      ap (λ t. values (stored t rest)) (store-IsFresh (key cfg) (make cfg) table h.0)
      ∙ (values-stored longer rest d.1 (AllFresh-append (key cfg) (make cfg) table rest d.0 h.1)
          ∙ (ap (λ t. t ++ map make rest) (values-append table ((key cfg, make cfg) ∷ []))
              ∙ append_assoc (values table) (make cfg ∷ []) (map make rest)))

  AllFresh-nil : (cfgs : List C) → AllFresh [] cfgs
  AllFresh-nil [] = tt
  AllFresh-nil (cfg ∷ rest) = (tt, AllFresh-nil rest)

table_of-stored :
    (n : ℕ) (table : List (String × Component)) (cfgs : List FrontendConfig)
    → table_of n table cfgs ≡ stored frontend_id (frontend n) table cfgs
table_of-stored n table [] = refl
table_of-stored n table (cfg ∷ rest) =
    table_of-stored n (store (frontend_id cfg) (frontend n cfg) table) rest

build_backends-stored :
    (n : ℕ) (table : List (String × Component)) (cfgs : List BackendConfig)
    → build_backends n table cfgs ≡ stored backend_id (backend n) table cfgs
unfolding build_backends
build_backends-stored n table [] = refl
build_backends-stored n table (cfg ∷ rest) =
    build_backends-stored n (store (backend_id cfg) (backend n cfg) table) rest

-- If no two frontends and no two backends of a configuration have one identifier, then a runtime is
-- taken down by stopping all the frontends that it started, in the order of the configuration, then
-- its responder and its dispatcher, and by closing all its backends over TCP.
pub takedown-bundle_of :
    (n : ℕ) (config : GatewayConfig)
    → IsDistinct (map frontend_id config.frontends)
    → IsDistinct (map backend_id config.backends)
    → takedown (some (bundle_of n config))
      ≡ stops (map (frontend n) config.frontends)
        ++ (stop (responder n) ∷ stop (dispatcher n) ∷ closings (map (backend n) config.backends))
takedown-bundle_of n config f b =
    let fs = config.frontends in
    let bs = config.backends in
    let front : values (table_of n [] fs) ≡ map (frontend n) fs =
      ap values (table_of-stored n [] fs)
      ∙ values-stored frontend_id (frontend n) [] fs f (AllFresh-nil frontend_id (frontend n) fs) in
    let back : values (build_backends n [] bs) ≡ map (backend n) bs =
      ap values (build_backends-stored n [] bs)
      ∙ values-stored backend_id (backend n) [] bs b (AllFresh-nil backend_id (backend n) bs) in
    rw (front, back) refl
