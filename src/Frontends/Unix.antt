-- ===== src/Frontends/Unix.antt =====
-- modbusgw/frontends/unix_modbus_tcp.py: who is served. The loop over a client's stream and the
-- replies are those of Frontends/Mbap. Clients come and go while others are served; each is told by
-- the value that `_client_counter` had for it.
pub mod Counts
pub mod Limit
mod Tests
use modbusgw.Base.{
  ℕ, ◌+◌, ◌-◌, ◌==◌, leb, Bool, true, false, not, List, [], ◌∷◌, ◌++◌, Option, none, some, String,
  if◌then◌else◌, ◌≡◌, ◌⊎◌,
}
use Prim.Native.String.{◌++◌ as join}
use modbusgw.Frontends.Mbap.{PendingRequest, set_pending, pop_pending, drop_client}

-- A task in `_tasks` is a client's handler, by the client's number; the flag says that it has come to
-- `await writer.wait_closed()` in its `finally` clause. `server` says whether `_server` is set.
abbrev pub Task : Type 0
Task = ℕ × Bool

pub record UnixFrontend : Type 0 where
  pub name : String
  pub max_clients : ℕ
  pub server : Bool
  pub client_counter : ℕ
  pub current_clients : ℕ
  pub tasks : List Task
  pub pending : List (String × PendingRequest)

abbrev pub new_frontend : String → ℕ → UnixFrontend
new_frontend name max_clients = record {
  name = name;
  max_clients = max_clients;
  server = false;
  client_counter = 0;
  current_clients = 0;
  tasks = [];
  pending = [];
}

-- `self._tasks.discard(task)`, and the task that goes on to wait for its connection
pub discard : ℕ → List Task → List Task
discard n [] = []
discard n ((m, flag) ∷ rest) = if m == n then rest else (m, flag) ∷ discard n rest

pub mark : ℕ → List Task → List Task
mark n [] = []
mark n ((m, flag) ∷ rest) = if m == n then (m, true) ∷ rest else (m, flag) ∷ mark n rest

-- The client's handler is among the tasks, in its loop (false) or waiting (true).
abbrev pub Serves : ℕ → Bool → List Task → Type 0
Serves n flag [] = ⊥
Serves n flag ((m, b) ∷ rest) = ((m ≡ n) × (b ≡ flag)) ⊎ Serves n flag rest

-- How many handlers wait
pub closing : List Task → ℕ
closing [] = 0
closing ((m, true) ∷ rest) = closing rest + 1
closing ((m, false) ∷ rest) = closing rest

-- `start`
pub start_server : UnixFrontend → UnixFrontend
start_server f = if f.server then f else record f { server = true }

-- `_handle_client` up to its loop: the client's number, if it is admitted
pub connect : UnixFrontend → Option ℕ × UnixFrontend
connect f = if leb f.max_clients f.current_clients then (none, f) else (
  some (f.client_counter + 1),
  record f {
    current_clients = f.current_clients + 1;
    client_counter = f.client_counter + 1;
    tasks = (f.client_counter + 1, false) ∷ f.tasks;
  },
)

-- `show` is how Python writes a number.
module _ (show : ℕ → String) where
  -- the `client_id`
  pub client_id : String → ℕ → String
  client_id name n = join name (join "-u" (show n))

  -- The `finally` clause of a client's handler, up to the wait for its connection, and after it
  pub close_writer : ℕ → UnixFrontend → UnixFrontend
  unfolding client_id
  close_writer n f = record f {
    pending = drop_client (client_id f.name n) f.pending;
    tasks = mark n f.tasks;
  }

  pub leave : ℕ → UnixFrontend → UnixFrontend
  leave n f = record f { tasks = discard n f.tasks; current_clients = f.current_clients - 1 }

  -- Each task is cancelled. One in its loop runs its `finally` clause before `gather` returns. In one
  -- that waits, the cancellation comes out of `wait_closed`, since `suppress(Exception)` does not take
  -- it, and the rest of the clause is skipped.
  leave_all : List Task → UnixFrontend → UnixFrontend
  leave_all [] f = f
  leave_all ((n, true) ∷ rest) f = leave_all rest f
  leave_all ((n, false) ∷ rest) f = leave_all rest (leave n (close_writer n f))

  -- `stop`, as one step once the server is closed
  pub stop : UnixFrontend → UnixFrontend
  unfolding leave_all
  stop f =
      if f.server
      then record (leave_all f.tasks (record f { server = false })) { tasks = []; pending = [] }
      else f

  -- What happens to a frontend: it is started or stopped, a client comes, the handler of one ends its
  -- loop, or has waited for the connection, a request of a client is remembered, a reply to one is
  -- sent. `cut` is the number of handlers that are cancelled while they wait.
  pub data Event (f g : UnixFrontend) (cut : ℕ) : Type 0 where
    started : cut ≡ 0 → g ≡ start_server f → Event f g cut
    stopped : cut ≡ (if f.server then closing f.tasks else 0) → g ≡ stop f → Event f g cut
    came : cut ≡ 0 → f.server ≡ true → g ≡ (connect f).1 → Event f g cut
    went : (n : ℕ) → cut ≡ 0 → Serves n false f.tasks → g ≡ close_writer n f → Event f g cut
    waited : (n : ℕ) → cut ≡ 0 → Serves n true f.tasks → g ≡ leave n f → Event f g cut
    asked :
        (id : String) (p : PendingRequest)
        → cut ≡ 0
        → g ≡ record f { pending = set_pending id p f.pending }
        → Event f g cut
    answered :
        (id : String)
        → cut ≡ 0
        → g ≡ record f { pending = pop_pending id f.pending }
        → Event f g cut
