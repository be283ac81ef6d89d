-- ===== src/Router/Main.antt =====
-- dummy.cpp: `main`. What the kernel answers to the calls of the start and to `accept` are scripts;
-- `truncated` is what `snprintf` writes to `sun_path`.
use arduino_q_plugin.Common.{
  ℕ, String, ◌≡◌, ◌≢◌, ◌⊎◌, arith, inl, inr, refl, ap, Bool, true, false, not, Option, none, some,
  List, [], ◌∷◌, ◌++◌, if◌then◌else◌,
}

-- What the calls before the loop answer: `sigaction`, `socket` with the descriptor, `bind`, `listen`.
pub record Startup : Type 0 where
  pub sigaction : Bool
  pub socket : Option ℕ
  pub bind : Bool
  pub listen : Bool

-- An answer of `accept`, by a descriptor or by its error.
pub data Accept : Type 0 where
  connection : ℕ → Accept
  interrupted failed : Accept

-- How the program goes on: it returns from `main`, or it waits in `accept`.
pub data Outcome : Type 0 where
  returns : ℕ → Outcome
  accepting : Outcome

-- A call of `main` that changes the system.
pub data Effect : Type 0 where
  unlink bind_to : String → Effect
  spawn close : ℕ → Effect

-- What `main` did, in order, and how it goes on.
abbrev pub Ran : Type 0
Ran = List Effect × Outcome

-- The loop, from its test of `Running` on: each answer comes with what `Running` is after it. The
-- outcome is none where the loop ends without a return.
unfoldable pub accept_loop : Bool → List (Accept × Bool) → List Effect × Option Outcome
accept_loop false answers = ([], none)
accept_loop true [] = ([], some Outcome.accepting)
accept_loop true ((Accept.connection fd, running) ∷ answers) =
    let (effects, stopped) = accept_loop running answers in (Effect.spawn fd ∷ effects, stopped)
accept_loop true ((Accept.interrupted, running) ∷ answers) = accept_loop running answers
accept_loop true ((Accept.failed, running) ∷ answers) = ([], some (Outcome.returns 1))

-- What follows the loop, unless `main` has returned from it.
unfoldable pub shut_down : ℕ → String → List Effect × Option Outcome → List Effect × Outcome
shut_down srv path (effects, some stopped) = (effects, stopped)
shut_down srv path (effects, none) =
    (effects ++ Effect.close srv ∷ Effect.unlink path ∷ [], Outcome.returns 0)

module _ (truncated : String → String) (path : String) where
  -- From `listen` on.
  unfoldable pub listening : ℕ → List (Accept × Bool) → Ran
  unfolding accept_loop shut_down
  listening srv answers = shut_down srv path (accept_loop true answers)

  -- From `socket` on: an error returns 1, and leaves the descriptor open.
  unfoldable pub with_socket : Startup → Option ℕ → List (Accept × Bool) → Ran
  unfolding listening
  with_socket k none answers = ([], Outcome.returns 1)
  with_socket k (some srv) answers =
      if not k.bind
      then ([], Outcome.returns 1)
      else if not k.listen
      then (Effect.bind_to (truncated path) ∷ [], Outcome.returns 1)
      else (let (effects, outcome) = listening srv answers in
          (Effect.bind_to (truncated path) ∷ effects, outcome))

  unfoldable pub start : Startup → List (Accept × Bool) → Ran
  unfolding with_socket
  start k answers =
      if not k.sigaction then ([], Outcome.returns 1) else with_socket k k.socket answers

abbrev pub default_path : String
default_path = "/tmp/mads-rpc.sock"

-- The arguments without the program's name.
abbrev pub router_path : List String → String
router_path [] = default_path
router_path (path ∷ rest) = path

unfoldable pub main : (String → String) → List String → Startup → List (Accept × Bool) → Ran
unfolding start
main truncated args k answers =
    let (effects, outcome) = start truncated (router_path args) k answers in
    (Effect.unlink (router_path args) ∷ effects, outcome)

-- The descriptors of the connections before the loop ends: at the first error, or once `Running` is
-- cleared.
unfoldable pub connections : Bool → List (Accept × Bool) → List ℕ
connections false answers = []
connections true [] = []
connections true ((Accept.connection fd, running) ∷ answers) = fd ∷ connections running answers
connections true ((Accept.interrupted, running) ∷ answers) = connections running answers
connections true ((Accept.failed, running) ∷ answers) = []

unfoldable pub spawns : List ℕ → List Effect
spawns [] = []
spawns (fd ∷ fds) = Effect.spawn fd ∷ spawns fds

-- What `main` does before the loop.
abbrev pub opening : (String → String) → String → List Effect
opening truncated path = Effect.unlink path ∷ Effect.bind_to (truncated path) ∷ []

-- The loop has spawned a thread for each of the descriptors, and then closed the socket and removed
-- its path, and returned 0, or else did neither.
abbrev pub Loops : ℕ → String → List ℕ → Ran → Type 0
Loops srv path fds (effects, outcome) =
    ((outcome ≡ Outcome.returns 0)
      × (effects ≡ spawns fds ++ Effect.close srv ∷ Effect.unlink path ∷ []))
    ⊎ ((outcome ≢ Outcome.returns 0) × (effects ≡ spawns fds))

spawned :
    (srv fd : ℕ) (path : String) (fds : List ℕ) (p : List Effect × Option Outcome)
    → Loops srv path fds (shut_down srv path p)
    → Loops srv path (fd ∷ fds) (shut_down srv path (Effect.spawn fd ∷ p.0, p.1))
unfolding shut_down spawns
spawned srv fd path fds (effects, none) (inl (returned, e)) =
    inl (returned, ap (◌∷◌ (Effect.spawn fd)) e)
spawned srv fd path fds (effects, none) (inr (other, e)) = absurd (other refl)
spawned srv fd path fds (effects, some o) (inl (returned, e)) =
    inl (returned, ap (◌∷◌ (Effect.spawn fd)) e)
spawned srv fd path fds (effects, some o) (inr (other, e)) =
    inr (other, ap (◌∷◌ (Effect.spawn fd)) e)

accept_loop-Loops :
    (running : Bool) (answers : List (Accept × Bool)) (srv : ℕ) (path : String)
    → Loops srv path
        (connections running answers)
        (shut_down srv path (accept_loop running answers))
unfolding accept_loop shut_down connections spawns
accept_loop-Loops false answers srv path = inl (refl, refl)
accept_loop-Loops true [] srv path = inr (λ e. absurd cc, refl)
accept_loop-Loops true ((Accept.connection fd, running) ∷ answers) srv path =
    spawned srv fd path (connections running answers) (accept_loop running answers)
      (accept_loop-Loops running answers srv path)
accept_loop-Loops true ((Accept.interrupted, running) ∷ answers) srv path =
    accept_loop-Loops running answers srv path
accept_loop-Loops true ((Accept.failed, running) ∷ answers) srv path =
    inr (λ e. ground (arith, e), refl)

-- When the calls of the start succeed, `main` binds the socket to the path, spawns one thread for each
-- connection up to the first error of `accept` or until `Running` is cleared, in their order, and
-- returns 0 exactly if it then closes the socket and removes the path.
pub main-Loops :
    (truncated : String → String) (args : List String) (k : Startup) (srv : ℕ)
    (answers : List (Accept × Bool))
    → k.sigaction ≡ true
    → k.socket ≡ some srv
    → k.bind ≡ true
    → k.listen ≡ true
    → (ran : Ran) × (main truncated args k answers
        ≡ (opening truncated (router_path args) ++ ran.0, ran.1))
      × Loops srv (router_path args) (connections true answers) ran
unfolding main start with_socket listening
main-Loops truncated args k srv answers signals sock bound listens = (
  shut_down srv (router_path args) (accept_loop true answers),
  rw (signals, sock, bound, listens) refl,
  accept_loop-Loops true answers srv (router_path args),
)
