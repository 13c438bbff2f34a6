-- ===== src/Frontends/Unix/Counts.antt =====
-- The count of clients, event by event.
use modbusgw.Base.{
  Bool, true, if◌then◌else◌, ℕ, ◌+◌, ◌≤◌, ◌==◌, leb, false, List, [], ◌∷◌, All, length, Option,
  String, if_of_true, if_of_false, Bool-cases, inl, inr, ◌≡◌, ◌≢◌, refl, ap, subst, sym, ◌∙◌, arith,
}
use modbusgw.Frontends.Mbap.{PendingRequest}
use modbusgw.Frontends.Unix.{
  UnixFrontend, Task, discard, mark, closing, Serves, start_server, connect, close_writer, leave,
  leave_all, stop, Event, started, stopped, came, went, waited, asked, answered,
}

-- No client twice.
abbrev pub IsDistinct : List Task → Type 0
IsDistinct [] = Unit {0}
IsDistinct ((n, flag) ∷ rest) = All (λ t. n ≢ t.0) rest × IsDistinct rest

-- The count is the number of tasks and of the slots that were lost, and within the limit; the clients
-- of the tasks differ, and the counter has passed them.
pub record IsCounted (lost : ℕ) (f : UnixFrontend) : Type 0 where
  pub counted : f.current_clients ≡ length f.tasks + lost
  pub within : f.current_clients ≤ f.max_clients
  pub passed : All (λ t. t.0 ≤ f.client_counter) f.tasks
  pub distinct : IsDistinct f.tasks

All-discard :
    (P : ℕ → Type 0) (n : ℕ) (ts : List Task)
    → All (λ t. P t.0) ts
    → All (λ t. P t.0) (discard n ts)
unfolding discard
All-discard P n [] h = tt
All-discard P n ((m, flag) ∷ ts) h = elim (Bool-cases (m == n)) [
  | inl y ↦ rw y h.1
  | inr other ↦ rw other (h.0, All-discard P n ts h.1)
]

All-mark :
    (P : ℕ → Type 0) (n : ℕ) (ts : List Task) → All (λ t. P t.0) ts → All (λ t. P t.0) (mark n ts)
unfolding mark
All-mark P n [] h = tt
All-mark P n ((m, flag) ∷ ts) h = elim (Bool-cases (m == n)) [
  | inl y ↦ rw y h
  | inr other ↦ rw other (h.0, All-mark P n ts h.1)
]

IsDistinct-discard : (n : ℕ) (ts : List Task) → IsDistinct ts → IsDistinct (discard n ts)
unfolding discard
IsDistinct-discard n [] h = tt
IsDistinct-discard n ((m, flag) ∷ ts) h = elim (Bool-cases (m == n)) [
  | inl y ↦ rw y h.1
  | inr other ↦ rw other (All-discard (λ k. m ≢ k) n ts h.0, IsDistinct-discard n ts h.1)
]

IsDistinct-mark : (n : ℕ) (ts : List Task) → IsDistinct ts → IsDistinct (mark n ts)
unfolding mark
IsDistinct-mark n [] h = tt
IsDistinct-mark n ((m, flag) ∷ ts) h = elim (Bool-cases (m == n)) [
  | inl y ↦ rw y h
  | inr other ↦ rw other (All-mark (λ k. m ≢ k) n ts h.0, IsDistinct-mark n ts h.1)
]

length-discard :
    (n : ℕ) (flag : Bool) (ts : List Task)
    → Serves n flag ts
    → length (discard n ts) + 1 ≡ length ts
unfolding discard
length-discard n flag [] h = absurd h
length-discard n flag ((m, b) ∷ ts) (inl e) = ground (arith, e.0)
length-discard n flag ((m, b) ∷ ts) (inr h) = ground (arith, length-discard n flag ts h)

length-mark : (n : ℕ) (ts : List Task) → length (mark n ts) ≡ length ts
unfolding mark
length-mark n [] = refl
length-mark n ((m, flag) ∷ ts) = ground (arith, length-mark n ts)

All-le_suc : (k : ℕ) (ts : List Task) → All (λ t. t.0 ≤ k) ts → All (λ t. t.0 ≤ k + 1) ts
All-le_suc k [] h = tt
All-le_suc k (t ∷ ts) h = (omega (arith, h.0), All-le_suc k ts h.1)

All-differ : (k : ℕ) (ts : List Task) → All (λ t. t.0 ≤ k) ts → All (λ t. k + 1 ≢ t.0) ts
All-differ k [] h = tt
All-differ k (t ∷ ts) h = (λ e. absurd (omega (arith, h.0)), All-differ k ts h.1)

connect-IsCounted : (lost : ℕ) (f : UnixFrontend) → IsCounted lost f → IsCounted lost (connect f).1
unfolding connect
connect-IsCounted lost f c = elim (Bool-cases (leb f.max_clients f.current_clients)) [
  | inl full ↦
      subst (λ (x : Option ℕ × UnixFrontend). IsCounted lost x.1) (sym (if_of_true _ _ full)) c
  | inr room ↦
      subst (λ (x : Option ℕ × UnixFrontend). IsCounted lost x.1) (sym (if_of_false _ _ room))
        (record {
          counted = omega (arith, c.counted);
          within = ground arith;
          passed = (omega arith, All-le_suc f.client_counter f.tasks c.passed);
          distinct = (All-differ f.client_counter f.tasks c.passed, c.distinct);
        })
]

module _ (show : ℕ → String) where
  close_writer-IsCounted :
      (lost n : ℕ) (f : UnixFrontend) → IsCounted lost f → IsCounted lost (close_writer show n f)
  unfolding close_writer
  close_writer-IsCounted lost n f c = record {
    counted = omega (arith, c.counted, length-mark n f.tasks);
    within = c.within;
    passed = All-mark (λ m. m ≤ f.client_counter) n f.tasks c.passed;
    distinct = IsDistinct-mark n f.tasks c.distinct;
  }

  leave-IsCounted :
      (lost n : ℕ) (f : UnixFrontend)
      → Serves n true f.tasks
      → IsCounted lost f
      → IsCounted lost (leave show n f)
  unfolding leave
  leave-IsCounted lost n f h c = record {
    counted = omega (arith, c.counted, length-discard n true f.tasks h);
    within = omega (arith, c.within);
    passed = All-discard (λ m. m ≤ f.client_counter) n f.tasks c.passed;
    distinct = IsDistinct-discard n f.tasks c.distinct;
  }

  leave_all-current :
      (ts : List Task) (f : UnixFrontend)
      → length ts ≤ f.current_clients
      → (leave_all show ts f).current_clients + length ts ≡ f.current_clients + closing ts
  unfolding leave_all leave close_writer closing
  leave_all-current [] f h = omega arith
  leave_all-current ((n, true) ∷ ts) f h = omega (arith, leave_all-current ts f (omega arith))
  leave_all-current ((n, false) ∷ ts) f h =
      omega (arith, leave_all-current ts (leave show n (close_writer show n f)) (omega arith))

  leave_all-limit :
      (ts : List Task) (f : UnixFrontend) → (leave_all show ts f).max_clients ≡ f.max_clients
  unfolding leave_all leave close_writer
  leave_all-limit [] f = refl
  leave_all-limit ((n, true) ∷ ts) f = leave_all-limit ts f
  leave_all-limit ((n, false) ∷ ts) f = leave_all-limit ts (leave show n (close_writer show n f))

  closing-le : (ts : List Task) → closing ts ≤ length ts
  unfolding closing
  closing-le [] = omega arith
  closing-le ((n, true) ∷ ts) = omega (arith, closing-le ts)
  closing-le ((n, false) ∷ ts) = omega (arith, closing-le ts)

  stop-IsCounted :
      (lost cut : ℕ) (f : UnixFrontend)
      → cut ≡ (if f.server then closing f.tasks else 0)
      → IsCounted lost f
      → IsCounted (lost + cut) (stop show f)
  unfolding stop
  stop-IsCounted lost cut f e c = elim (Bool-cases f.server) [
    | inr off ↦
        let none_cut : cut ≡ 0 = e ∙ if_of_false _ _ off in
        subst (IsCounted (lost + cut)) (sym (if_of_false _ _ off))
          (subst (λ k. IsCounted k f) (omega (arith, none_cut)) c)
    | inl on ↦
        let all_cut : cut ≡ closing f.tasks = e ∙ if_of_true _ _ on in
        let g : UnixFrontend = record f { server = false } in
        let left = leave_all-current f.tasks g (omega (arith, c.counted)) in
        let limit = leave_all-limit f.tasks g in
        subst (IsCounted (lost + cut)) (sym (if_of_true _ _ on)) (record {
          counted = omega (arith, c.counted, left, all_cut);
          within = omega (arith, c.counted, c.within, left, limit, closing-le f.tasks);
          passed = tt;
          distinct = tt;
        })
  ]

  start_server-IsCounted :
      (lost : ℕ) (f : UnixFrontend) → IsCounted lost f → IsCounted lost (start_server f)
  unfolding start_server
  start_server-IsCounted lost f c = elim (Bool-cases f.server) [
    | inl on ↦ subst (IsCounted lost) (sym (if_of_true _ _ on)) c
    | inr off ↦ subst (IsCounted lost) (sym (if_of_false _ _ off)) (record {
      counted = c.counted;
      within = c.within;
      passed = c.passed;
      distinct = c.distinct;
    })
  ]

  IsCounted-pending :
      (lost : ℕ) (f : UnixFrontend) (table : List (String × PendingRequest))
      → IsCounted lost f
      → IsCounted lost (record f { pending = table })
  IsCounted-pending lost f table c = record {
    counted = c.counted;
    within = c.within;
    passed = c.passed;
    distinct = c.distinct;
  }

  same_lost :
      {lost cut : ℕ} {f g : UnixFrontend}
      → cut ≡ 0
      → g ≡ f
      → IsCounted lost f
      → IsCounted (lost + cut) g
  same_lost {lost} {cut} {f} {g} z e c =
      subst (IsCounted (lost + cut)) (sym e) (subst (λ k. IsCounted k f) (omega (arith, z)) c)

  pub Event-IsCounted :
      (lost cut : ℕ) (f g : UnixFrontend)
      → Event show f g cut
      → IsCounted lost f
      → IsCounted (lost + cut) g
  Event-IsCounted lost cut f g (started z e) c = same_lost z e (start_server-IsCounted lost f c)
  Event-IsCounted lost cut f g (stopped k e) c =
      subst (IsCounted (lost + cut)) (sym e) (stop-IsCounted lost cut f k c)
  Event-IsCounted lost cut f g (came z on e) c = same_lost z e (connect-IsCounted lost f c)
  Event-IsCounted lost cut f g (went n z h e) c = same_lost z e (close_writer-IsCounted lost n f c)
  Event-IsCounted lost cut f g (waited n z h e) c = same_lost z e (leave-IsCounted lost n f h c)
  Event-IsCounted lost cut f g (asked id p z e) c = same_lost z e (IsCounted-pending lost f _ c)
  Event-IsCounted lost cut f g (answered id z e) c = same_lost z e (IsCounted-pending lost f _ c)

  -- `max_clients` stays what the frontend was made with.
  start_server-limit : (f : UnixFrontend) → (start_server f).max_clients ≡ f.max_clients
  unfolding start_server
  start_server-limit f = ground arith

  connect-limit : (f : UnixFrontend) → (connect f).1.max_clients ≡ f.max_clients
  unfolding connect
  connect-limit f = ground arith

  stop-limit : (f : UnixFrontend) → (stop show f).max_clients ≡ f.max_clients
  unfolding stop
  stop-limit f = ground (arith, leave_all-limit f.tasks (record f { server = false }))

  pub Event-limit :
      (f g : UnixFrontend) (cut : ℕ) → Event show f g cut → g.max_clients ≡ f.max_clients
  unfolding close_writer leave
  Event-limit f g cut (started z e) =
      ap (λ (x : UnixFrontend). x.max_clients) e ∙ start_server-limit f
  Event-limit f g cut (stopped k e) = ap (λ (x : UnixFrontend). x.max_clients) e ∙ stop-limit f
  Event-limit f g cut (came z on e) = ap (λ (x : UnixFrontend). x.max_clients) e ∙ connect-limit f
  Event-limit f g cut (went n z h e) = ap (λ (x : UnixFrontend). x.max_clients) e
  Event-limit f g cut (waited n z h e) = ap (λ (x : UnixFrontend). x.max_clients) e
  Event-limit f g cut (asked id p z e) = ap (λ (x : UnixFrontend). x.max_clients) e
  Event-limit f g cut (answered id z e) = ap (λ (x : UnixFrontend). x.max_clients) e
