-- ===== src/Docker/Repository/Listing.antt =====
-- The containers that were listed for a channel, in a run.
use acadock_monitoring.Prelude.{
  ℕ, zero, suc, List, [], ◌∷◌, ◌++◌, Option, none, some, get_elem?, update_at,
  get_elem?-update_at_self, get_elem?-update_at_ne, ◌==◌, Outcome, if◌then◌else◌, ◌≡◌, refl, ap,
  sym, ◌∙◌, arith, inl, inr, Bool-cases,
}
use acadock_monitoring.Docker.Events.{ContainerEvent}
use acadock_monitoring.Docker.Containers.{ContainerSummary}
use acadock_monitoring.Docker.Repository.{
  broadcast, Channel, Repository, new_container_repository, new_channel, send, receive, take_first,
  begin_replay, send_replay, listed_of, registers, announces, delivers, unlocks, lists, replays,
  receives, Reach, here, next,
}

-- What the listing for the channel of a position returned last, and nothing where there was none or
-- it failed.
unfoldable pub listed_in : {r s : Repository} → Reach r s → ℕ → List ContainerSummary
listed_in here i = []
listed_in (next r (registers free)) i = listed_in r i
listed_in (next r (announces e free)) i = listed_in r i
listed_in (next r (delivers e n c now at free)) i = listed_in r i
listed_in (next r (unlocks e now)) i = listed_in r i
listed_in (next r (lists n c containers at due)) i =
    let before = listed_in r i in if n == i then listed_of containers else before
listed_in (next r (replays n c e es at due free)) i = listed_in r i
listed_in (next r (receives n c at)) i = listed_in r i

abbrev pub listed_by : Option Channel → List ContainerSummary
listed_by none = []
listed_by (some c) = c.listed

listed_by-append :
    (cs : List Channel) (since i : ℕ)
    → listed_by (get_elem? (cs ++ new_channel since ∷ []) i) ≡ listed_by (get_elem? cs i)
unfolding new_channel
listed_by-append [] since zero = refl
listed_by-append [] since (suc i) = refl
listed_by-append (c ∷ cs) since zero = refl
listed_by-append (c ∷ cs) since (suc i) = listed_by-append cs since i

listed_by-update_at :
    (f : Channel → Channel)
    → ((c : Channel) → (f c).listed ≡ c.listed)
    → (n : ℕ) (cs : List Channel) (i : ℕ)
    → listed_by (get_elem? (update_at n f cs) i) ≡ listed_by (get_elem? cs i)
unfolding update_at
listed_by-update_at f keep n [] i = refl
listed_by-update_at f keep zero (c ∷ cs) zero = keep c
listed_by-update_at f keep zero (c ∷ cs) (suc i) = refl
listed_by-update_at f keep (suc n) (c ∷ cs) zero = refl
listed_by-update_at f keep (suc n) (c ∷ cs) (suc i) = listed_by-update_at f keep n cs i

listed_by-begin_replay :
    (o : Outcome (List ContainerSummary)) (n : ℕ) (c : Channel) (cs : List Channel) (i : ℕ)
    → get_elem? cs n ≡ some c
    → listed_by (get_elem? (update_at n (begin_replay o) cs) i)
      ≡ (if n == i then listed_of o else listed_by (get_elem? cs i))
listed_by-begin_replay o n c cs i at = elim (Bool-cases (n == i)) [
  | inl same ↦
      let e : n ≡ i = ground arith in
      rw same (
        ap (λ (k : ℕ). listed_by (get_elem? (update_at n (begin_replay o) cs) k)) (sym e)
        ∙ ap listed_by (get_elem?-update_at_self n (begin_replay o) cs at))
  | inr other ↦
      rw other (ap listed_by (get_elem?-update_at_ne n i (begin_replay o) cs (λ e. ground arith)))
]

take_first-listed : (b : List ContainerEvent) (c : Channel) → (take_first b c).listed ≡ c.listed
unfolding take_first
take_first-listed [] c = refl
take_first-listed (e ∷ rest) c = refl

-- What a channel keeps of its listing is what the run says.
pub new_container_repository-listed :
    {r : Repository} (reach : Reach new_container_repository r) (i : ℕ)
    → listed_by (get_elem? r.registered_chans i) ≡ listed_in reach i
unfolding listed_in new_container_repository receive
new_container_repository-listed here i = refl
new_container_repository-listed (next {s} r (registers free)) i =
    listed_by-append s.registered_chans _ i ∙ new_container_repository-listed r i
new_container_repository-listed (next r (announces e free)) i = new_container_repository-listed r i
new_container_repository-listed (next {s} r (delivers e n c now at free)) i =
    listed_by-update_at (send broadcast e) (λ d. refl) n s.registered_chans i
    ∙ new_container_repository-listed r i
new_container_repository-listed (next r (unlocks e now)) i = new_container_repository-listed r i
new_container_repository-listed (next {s} r (lists n c o at due)) i =
    listed_by-begin_replay o n c s.registered_chans i at
    ∙ ap (λ (cs : List ContainerSummary). if n == i then listed_of o else cs)
        (new_container_repository-listed r i)
new_container_repository-listed (next {s} r (replays n c e es at due free)) i =
    listed_by-update_at (send_replay e es) (λ d. refl) n s.registered_chans i
    ∙ new_container_repository-listed r i
new_container_repository-listed (next {s} r (receives n c at)) i =
    listed_by-update_at receive (λ d. take_first-listed d.buffer d) n s.registered_chans i
    ∙ new_container_repository-listed r i
