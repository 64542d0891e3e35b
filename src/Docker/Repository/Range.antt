-- ===== src/Docker/Repository/Range.antt =====
-- A broadcast never stands behind the last channel.
use acadock_monitoring.Prelude.{
  ℕ, ◌≤◌, [], ◌∷◌, ◌++◌, Option, none, some, length, get_elem?-lt, length-update_at, ◌≡◌, sym,
  arith,
}
use acadock_monitoring.Docker.Repository.{
  Sending, Repository, new_container_repository, send, broadcast, Step, new_channel, registers,
  announces, delivers, unlocks, lists, replays, receives, Reach, here, next,
}

-- The next channel is a registered one, or there is none left.
abbrev pub IsInRange : Option Sending → ℕ → Type 0
IsInRange none n = Unit
IsInRange (some s) n = s.position ≤ n

current_none : (o : Option Sending) (n : ℕ) → o ≡ none → IsInRange o n
current_none none n e = tt
current_none (some s) n e = cc

IsInRange-same : (o : Option Sending) (n k : ℕ) → n ≡ k → IsInRange o n → IsInRange o k
IsInRange-same none n k e h = tt
IsInRange-same (some s) n k e h = omega arith

Step-IsInRange :
    {r t : Repository}
    → Step r t
    → IsInRange r.current (length r.registered_chans)
    → IsInRange t.current (length t.registered_chans)
Step-IsInRange {r} {t} (registers free) h =
    current_none r.current (length (r.registered_chans ++ new_channel (length r.finished) ∷ []))
      free
Step-IsInRange (announces e free) h = omega arith
Step-IsInRange {r} (delivers e n c now at free) h = omega (
  arith,
  get_elem?-lt r.registered_chans n at,
  length-update_at n (send broadcast e) r.registered_chans,
)
Step-IsInRange (unlocks e now) h = tt
Step-IsInRange {r} (lists n c containers at due) h =
    IsInRange-same r.current _ _ (sym (length-update_at n _ r.registered_chans)) h
Step-IsInRange {r} (replays n c e es at due free) h =
    IsInRange-same r.current _ _ (sym (length-update_at n _ r.registered_chans)) h
Step-IsInRange {r} (receives n c at) h =
    IsInRange-same r.current _ _ (sym (length-update_at n _ r.registered_chans)) h

pub Reach-IsInRange :
    {r : Repository}
    → Reach new_container_repository r
    → IsInRange r.current (length r.registered_chans)
unfolding new_container_repository
Reach-IsInRange here = tt
Reach-IsInRange (next r st) = Step-IsInRange st (Reach-IsInRange r)
