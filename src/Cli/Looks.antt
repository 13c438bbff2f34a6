-- ===== src/Cli/Looks.antt =====
-- Looking for a process, and the calls that send no signal and begin no run.
use modbusgw.Base.{
  ℕ, zero, suc, Bool, true, false, not, Option, none, some, String, if◌then◌else◌, inl, inr, ◌⊎◌,
  Exn, Result, ok, raise, is_os_error, process_lookup_error, permission_error, ◌≡◌, refl,
}
use modbusgw.Base.Exec.{pure, fail, ◌>>=◌, ◌>>◌}
use modbusgw.Base.Exec.Runs.{Ends, Ends-then}
use modbusgw.App.{System}
use modbusgw.Cli.{
  probe, Host, Service, Command, suppressed, remove, read_outcome, read_pid_file, answers,
  pid_is_running, sleep, poll, wait_for_exit,
}
use modbusgw.Base.Texts.{Text}
use modbusgw.Cli.Numbers.{ℤ}

module _ {W T : Type 0} (sys : System W) (host : Host W T) (path : String) where
  -- A look at the process finds it, or does not.
  abbrev pub Gone : ℤ → Type 0
  Gone pid = (w : W) × ((host.kill pid probe w).0 ≡ raise process_lookup_error)

  abbrev pub Seen : ℤ → Type 0
  Seen pid =
      (w : W) × (((host.kill pid probe w).0 ≡ ok tt)
        ⊎ ((host.kill pid probe w).0 ≡ raise permission_error))

  -- No signal has been sent and no run begun since.
  abbrev pub SameCalls : Service W → Service W → Type 0
  SameCalls s s' = (s'.signals ≡ s.signals) × (s'.launches ≡ s.launches)

  abbrev pub Found : ℤ → Bool → Type 0
  Found pid true = Seen pid
  Found pid false = Gone pid

  answers-Found :
      (pid : ℤ) (w : W) (o : Service W) (r : Result (Unit {0})) (s : Service W)
      → (host.kill pid probe w).0 ≡ r
      → SameCalls o s
      → Ends (λ b s'. Found pid b × SameCalls o s') (SameCalls o) (answers sys host path r s)
  unfolding answers
  answers-Found pid w o (ok tt) s h same = ((w, inl h), same)
  answers-Found pid w o (raise process_lookup_error) s h same = ((w, h), same)
  answers-Found pid w o (raise permission_error) s h same = ((w, inr h), same)
  answers-Found pid w o (raise e) s h same = same

  pub pid_is_running-Found :
      (pid : ℤ) (o s : Service W)
      → SameCalls o s
      → Ends
          (λ b s'. Found pid b × SameCalls o s')
          (SameCalls o)
          (pid_is_running sys host path pid s)
  unfolding pid_is_running ◌>>=◌
  pid_is_running-Found pid o s same =
      answers-Found pid s.world o (host.kill pid probe s.world).0
        (record s { world = (host.kill pid probe s.world).1 }) refl same

  abbrev pub Looks : ℤ → Service W → Option (Result Bool) × Service W → Type 0
  Looks pid o = Ends (λ b s'. Found pid (not b) × SameCalls o s') (SameCalls o)

  looked :
      (pid : ℤ) (o : Service W) (b : Bool) (s : Service W)
      → Found pid b × SameCalls o s
      → Looks pid o (some (ok (not b)), s)
  looked pid o true s h = h
  looked pid o false s h = h

  looked_again :
      (pid : ℤ) (o : Service W) (later : Command sys host path Bool)
      → ((s : Service W) → SameCalls o s → Looks pid o (later s))
      → (b : Bool) (s : Service W) → Found pid b × SameCalls o s
      → Looks pid o ((if b then (sleep sys host path >> later) else pure true) s)
  unfolding ◌>>=◌
  looked_again pid o later k true s h = k (record s { world = host.sleep s.world }) h.1
  looked_again pid o later k false s h = h

  poll-Looks :
      (n : ℕ) (pid : ℤ) (o s : Service W) → SameCalls o s → Looks pid o (poll sys host path n pid s)
  unfolding poll
  poll-Looks zero pid o s same =
      Ends-then (λ b s'. Found pid b × SameCalls o s') (λ b s'. Found pid (not b) × SameCalls o s')
        (SameCalls o) (SameCalls o) (pid_is_running sys host path pid) _ s
        (pid_is_running-Found pid o s same) (looked pid o) (λ s' h. h)
  poll-Looks (suc n) pid o s same =
      Ends-then (λ b s'. Found pid b × SameCalls o s') (λ b s'. Found pid (not b) × SameCalls o s')
        (SameCalls o) (SameCalls o) (pid_is_running sys host path pid) _ s
        (pid_is_running-Found pid o s same)
        (looked_again pid o (poll sys host path n pid) (λ s' h. poll-Looks n pid o s' h))
        (λ s' h. h)

  pub wait_for_exit-Looks :
      (pid : ℤ) (timeout : T) (o s : Service W)
      → SameCalls o s
      → Looks pid o (wait_for_exit sys host path pid timeout s)
  unfolding wait_for_exit
  wait_for_exit-Looks pid timeout o s same = poll-Looks (host.rounds timeout s.world) pid o s same

  -- What keeps the calls.
  abbrev pub Quiet : Service W → {A : Type 0} → Option (Result A) × Service W → Type 0
  Quiet o = Ends (λ a s'. SameCalls o s') (SameCalls o)

  passed-Quiet :
      {A : Type 0} (b : Bool) (a : A) (e : Exn) (o s : Service W)
      → SameCalls o s
      → Quiet o ((if b then pure a else fail e) s)
  passed-Quiet true a e o s h = h
  passed-Quiet false a e o s h = h

  suppressed-Quiet :
      (o : Service W) (r : Result (Unit {0})) (s : Service W)
      → SameCalls o s
      → Quiet o (suppressed sys host path r s)
  unfolding suppressed
  suppressed-Quiet o (ok done) s h = h
  suppressed-Quiet o (raise e) s h = passed-Quiet (is_os_error e) tt e o s h

  pub remove-Quiet :
      (file : String) (o s : Service W) → SameCalls o s → Quiet o (remove sys host path file s)
  unfolding remove ◌>>=◌
  remove-Quiet file o s same =
      suppressed-Quiet o (sys.unlink file s.world).0
        (record s { world = (sys.unlink file s.world).1 }) same

  read_outcome-Quiet :
      (o : Service W) (r : Result Text) (s : Service W)
      → SameCalls o s
      → Quiet o (read_outcome sys host path r s)
  unfolding read_outcome
  read_outcome-Quiet o (ok content) s h = h
  read_outcome-Quiet o (raise e) s h = passed-Quiet (is_os_error e) none e o s h

  pub read_pid_file-Quiet :
      (file : String) (o s : Service W)
      → SameCalls o s
      → Quiet o (read_pid_file sys host path file s)
  unfolding read_pid_file ◌>>=◌
  read_pid_file-Quiet file o s same =
      read_outcome-Quiet o (host.read_text file s.world).0
        (record s { world = (host.read_text file s.world).1 }) same
