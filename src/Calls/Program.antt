-- ===== src/Calls/Program.antt =====
-- Programs that make system calls, as socket_prog and the main functions of the servers do. What the
-- kernel answers decides how a program goes on; what goes to std::cout and std::cerr is left out.
use build_your_own_stuff.Prelude.{
  ℕ, suc, ◌^◌, ◌<◌, ◌≡◌, Bool, true, false, ◌&&◌, Option, none, some, Text, ◌==◌, if◌then◌else◌,
}

-- Calls that give a descriptor.
pub data Opening : Type 0 where
  socket : Opening
  accept : ℕ → Opening
  epoll_create1 : Opening

-- Calls that succeed or fail, with the descriptors, port and backlog they are made on.
pub data Attempt : Type 0 where
  setsockopt : ℕ → Attempt
  bind : ℕ → ℕ → Attempt
  listen : ℕ → ℕ → Attempt
  inet_pton : Attempt
  connect : ℕ → ℕ → Attempt
  fcntl_getfl : ℕ → Attempt
  fcntl_setfl : ℕ → Attempt
  epoll_add : ℕ → ℕ → Attempt

-- `running` is a loop that goes on, after the turns that were looked at. `hands` gives a descriptor to
-- a detached thread, which is to close it.
pub data Program : Type 0 where
  exit : ℕ → Program
  running : Program
  opens : Opening → (Option ℕ → Program) → Program
  attempts : Attempt → (Bool → Program) → Program
  receives : ℕ → ℕ → (Option Text → Program) → Program
  sends : ℕ → Text → Program → Program
  closes : ℕ → Program → Program
  hands : ℕ → Program → Program

-- How a program goes on behind a test of a result for -1, or for being negative.
abbrev pub opened : Program → (ℕ → Program) → Option ℕ → Program
opened failed go none = failed
opened failed go (some fd) = go fd

abbrev pub checked : Program → Program → Bool → Program
checked failed go false = failed
checked failed go true = go

abbrev pub arrived : Program → (Text → Program) → Option Text → Program
arrived failed go none = failed
arrived failed go (some bytes) = go bytes

-- The descriptors that a process has open.
abbrev pub Open : Type 0
Open = ℕ → Bool

abbrev pub nothing_open : Open
nothing_open fd = false

abbrev pub with_fd : ℕ → Open → Open
with_fd fd open_fds x = if x == fd then true else open_fds x

abbrev pub without_fd : ℕ → Open → Open
without_fd fd open_fds x = if x == fd then false else open_fds x

abbrev pub opening_uses : Opening → Open → Bool
opening_uses socket open_fds = true
opening_uses (accept fd) open_fds = open_fds fd
opening_uses epoll_create1 open_fds = true

abbrev pub attempt_uses : Attempt → Open → Bool
attempt_uses (setsockopt fd) open_fds = open_fds fd
attempt_uses (bind fd port) open_fds = open_fds fd
attempt_uses (listen fd backlog) open_fds = open_fds fd
attempt_uses inet_pton open_fds = true
attempt_uses (connect fd port) open_fds = open_fds fd
attempt_uses (fcntl_getfl fd) open_fds = open_fds fd
attempt_uses (fcntl_setfl fd) open_fds = open_fds fd
attempt_uses (epoll_add epoll_fd fd) open_fds = open_fds epoll_fd && open_fds fd

-- What the kernel answers to the n-th call.
pub record Kernel : Type 0 where
  pub descriptor : ℕ → Open → Option ℕ
  pub success : ℕ → Bool
  pub received : ℕ → Option Text

-- A call that opens gives an int that is not negative, and no descriptor that is open.
abbrev pub IsFresh : Kernel → Type 0
IsFresh k =
    (n : ℕ) (open_fds : Open) (fd : ℕ)
    → k.descriptor n open_fds ≡ some fd
    → (open_fds fd ≡ false) × (fd < 2 ^ 31)

-- What a run ends in: an exit code and what is open, a loop that goes on, or a call on a descriptor
-- that is not open.
pub data Outcome : Type 0 where
  exited : ℕ → Open → Outcome
  goes_on : Open → Outcome
  misuses : Outcome

unfoldable pub run : Kernel → ℕ → Open → Program → Outcome
run k n open_fds (exit code) = exited code open_fds
run k n open_fds running = goes_on open_fds
run k n open_fds (opens c next) = elim (opening_uses c open_fds) [
  | true ↦ (elim (k.descriptor n open_fds) [
    | none ↦ run k (suc n) open_fds (next none)
    | some fd ↦ run k (suc n) (with_fd fd open_fds) (next (some fd))
  ])
  | false ↦ misuses
]
run k n open_fds (attempts c next) = elim (attempt_uses c open_fds) [
  | true ↦ run k (suc n) open_fds (next (k.success n))
  | false ↦ misuses
]
run k n open_fds (receives fd capacity next) = elim (open_fds fd) [
  | true ↦ run k (suc n) open_fds (next (k.received n))
  | false ↦ misuses
]
run k n open_fds (sends fd bytes next) = elim (open_fds fd) [
  | true ↦ run k (suc n) open_fds next
  | false ↦ misuses
]
run k n open_fds (closes fd next) = elim (open_fds fd) [
  | true ↦ run k (suc n) (without_fd fd open_fds) next
  | false ↦ misuses
]
run k n open_fds (hands fd next) = elim (open_fds fd) [
  | true ↦ run k (suc n) (without_fd fd open_fds) next
  | false ↦ misuses
]
