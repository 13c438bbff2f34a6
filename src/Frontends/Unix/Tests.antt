-- ===== src/Frontends/Unix/Tests.antt =====
-- The limit at a frontend for one client, which was stopped while the handler of its one client
-- waited for the connection to close: no handler runs, and no client is admitted any more.
use modbusgw.Base.{ℕ, ◌+◌, ◌≤◌, length, none, inl, String, ◌≡◌, ◌↔◌, refl}
use modbusgw.Frontends.Unix.{
  UnixFrontend, new_frontend, mark, closing, start_server, connect, close_writer, stop, leave_all,
  started, came, went, stopped,
}
use modbusgw.Frontends.Unix.Counts.{IsDistinct}
use modbusgw.Frontends.Unix.Limit.{Reaches, fresh, then_event, Reaches-limit}

abbrev digit : ℕ → String
digit n = "1"

abbrev busy : UnixFrontend
busy = (connect (start_server (new_frontend "u" 1))).1

abbrev cut_off : UnixFrontend
cut_off = start_server (stop digit (close_writer digit 1 busy))

cut_off-Reaches : Reaches digit "u" 1 1 cut_off
unfolding connect start_server stop close_writer closing mark leave_all
cut_off-Reaches =
    then_event 0
      (then_event 1
        (then_event 0 (then_event 0 (then_event 0 fresh (started refl refl)) (came refl refl refl))
          (went 1 refl (inl (refl, refl)) refl))
        (stopped refl refl))
      (started refl refl)

Reaches-limit_example :
    (length cut_off.tasks + 1 ≤ 1)
    × IsDistinct cut_off.tasks
    × (((connect cut_off).0 ≡ none) ↔ (length cut_off.tasks + 1 ≡ 1))
Reaches-limit_example = Reaches-limit digit cut_off-Reaches
