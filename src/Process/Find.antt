-- ===== src/Process/Find.antt =====
-- process_find of kernel/process.c.
use ore_os.Base.{Bool-cases, arith, inl, inr, some, suc, zero, ℕ, ◌+◌, ◌<◌, ◌==◌, ◌≡◌, ◌≤◌}
use ore_os.Process.{Procs, find_from, process_find}

find_from_lem :
    (rounds i pid : ℕ) (s : Procs) {j : ℕ}
    → find_from rounds i pid s ≡ some j
    → (i ≤ j) × (j < i + rounds) × ((s.table j).pid ≡ pid)
unfolding find_from
find_from_lem zero i pid s e = cc
find_from_lem (suc rounds) i pid s {j} e =
    ground (arith, find_from_lem rounds (i + 1) pid s {j = j})

pub process_find_lem :
    (pid : ℕ) (s : Procs) {j : ℕ}
    → process_find pid s ≡ some j
    → (j < s.count) × ((s.table j).pid ≡ pid)
unfolding process_find
process_find_lem pid s {j} e = let r = find_from_lem s.count 0 pid s {j = j} e in (omega arith, r.2)

find_from_self :
    (rounds i pid : ℕ) (s : Procs)
    → ((k : ℕ) → k < i + rounds → (s.table k).pid ≡ k)
    → i ≤ pid
    → pid < i + rounds
    → find_from rounds i pid s ≡ some pid
unfolding find_from
find_from_self zero i pid s pids lo hi = absurd (omega arith)
find_from_self (suc n) i pid s pids lo hi = elim (Bool-cases (i == pid)) [
  | inl here ↦ (let own = pids i (omega arith) in ground arith)
  | inr later ↦
      let own = pids i (omega arith) in
      let rest =
        find_from_self n (i + 1) pid s (λ k b. pids k (omega arith)) (ground arith) (omega arith) in
      ground arith
]

-- A process whose pid is its index is found there.
pub process_find_self :
    (pid : ℕ) (s : Procs)
    → ((k : ℕ) → k < s.count → (s.table k).pid ≡ k)
    → pid < s.count
    → process_find pid s ≡ some pid
unfolding process_find
process_find_self pid s pids lt =
    find_from_self s.count 0 pid s (λ k b. pids k (omega arith)) (omega arith) (omega arith)
