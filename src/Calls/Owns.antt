-- ===== src/Calls/Owns.antt =====
-- A discipline for programs that make system calls: every call is made on an open descriptor, and at
-- the exit a condition holds of what is open.
use build_your_own_stuff.Prelude.{
  ℕ, suc, ◌≡◌, Bool, true, false, Option-cases, inl, inr, Option, none, some, Text,
}
use build_your_own_stuff.Calls.Program.{
  Program, exit, running, opens, attempts, receives, sends, closes, hands, Open, with_fd,
  without_fd, opening_uses, attempt_uses, Kernel, IsFresh, Outcome, exited, goes_on, misuses, run,
}

-- The discipline, with `Final` the condition at the exit.
abbrev pub Owns : (ℕ → Open → Type 0) → Open → Program → Type 0
Owns Final open_fds (exit code) = Final code open_fds
Owns Final open_fds running = Unit {0}
Owns Final open_fds (opens c next) =
    (opening_uses c open_fds ≡ true)
    × Owns Final open_fds (next none)
    × ((fd : ℕ) → open_fds fd ≡ false → Owns Final (with_fd fd open_fds) (next (some fd)))
Owns Final open_fds (attempts c next) =
    (attempt_uses c open_fds ≡ true) × ((b : Bool) → Owns Final open_fds (next b))
Owns Final open_fds (receives fd capacity next) =
    (open_fds fd ≡ true) × ((r : Option Text) → Owns Final open_fds (next r))
Owns Final open_fds (sends fd bytes next) = (open_fds fd ≡ true) × Owns Final open_fds next
Owns Final open_fds (closes fd next) =
    (open_fds fd ≡ true) × Owns Final (without_fd fd open_fds) next
Owns Final open_fds (hands fd next) =
    (open_fds fd ≡ true) × Owns Final (without_fd fd open_fds) next

-- The run misuses no descriptor, and where it exits the condition holds.
abbrev pub Keeps : (ℕ → Open → Type 0) → Outcome → Type 0
Keeps Final (exited code open_fds) = Final code open_fds
Keeps Final (goes_on open_fds) = Unit {0}
Keeps Final misuses = ⊥

-- Under every kernel that opens fresh descriptors, a program that has the discipline from what is open
-- makes no call on a descriptor that is not open, and where it exits the condition holds.
pub run-Keeps :
    (Final : ℕ → Open → Type 0) (k : Kernel) (n : ℕ) (open_fds : Open) (p : Program)
    → IsFresh k
    → Owns Final open_fds p
    → Keeps Final (run k n open_fds p)
unfolding run
run-Keeps Final k n open_fds (exit code) fresh h = h
run-Keeps Final k n open_fds running fresh h = tt
run-Keeps Final k n open_fds (opens c next) fresh h =
    elim (Option-cases (k.descriptor n open_fds)) [
      | inl e ↦ rw (h.0, e, run) (run-Keeps Final k (suc n) open_fds (next none) fresh h.1)
      | inr (fd, e) ↦
          rw (h.0, e, run)
            (run-Keeps Final k (suc n) (with_fd fd open_fds) (next (some fd)) fresh
              (h.2 fd (fresh n open_fds fd e).0))
    ]
run-Keeps Final k n open_fds (attempts c next) fresh h =
    rw (h.0, run)
      (run-Keeps Final k (suc n) open_fds (next (k.success n)) fresh (h.1 (k.success n)))
run-Keeps Final k n open_fds (receives fd capacity next) fresh h =
    rw (h.0, run)
      (run-Keeps Final k (suc n) open_fds (next (k.received n)) fresh (h.1 (k.received n)))
run-Keeps Final k n open_fds (sends fd bytes next) fresh h =
    rw (h.0, run) (run-Keeps Final k (suc n) open_fds next fresh h.1)
run-Keeps Final k n open_fds (closes fd next) fresh h =
    rw (h.0, run) (run-Keeps Final k (suc n) (without_fd fd open_fds) next fresh h.1)
run-Keeps Final k n open_fds (hands fd next) fresh h =
    rw (h.0, run) (run-Keeps Final k (suc n) (without_fd fd open_fds) next fresh h.1)
