-- ===== src/Workers/Cluster.antt =====
-- workers/locker.go in several processes that share a leader election: each has a Locker of its own, and rueidisleader
-- tells it whether it leads, of which this file takes that at most one process leads. A call of Lock asks for that before it
-- takes the mutex, so it is two steps, and the leader may change between them.
use windowframe.Prelude.{
  ℕ, ◌<◌, String, String_comparable, ℕ_comparable, ◌==◌, ==_iff, ◌≡◌, ◌≢◌, ◌+◌, ◌⊎◌, refl, sym,
  Bool, Bool-cases, true, false, inl, inr, arith, if◌then◌else◌,
}
use mathlib.Core.Path.{subst}
use native.Mathlib.Decide.{dec_lt}
use windowframe.Workers.Locker.{
  Locker, new_locker, lock, unlock, Holders, after_lock, after_unlock, Run, start, calls_lock,
  calls_unlock, locker_excludes, granted,
}

abbrev pub at {ℓ} : {A : Type ℓ} → ℕ → A → (ℕ → A) → ℕ → A
at p a f q = if p == q then a else f q

-- The processes by their numbers; `asking` counts the calls of Lock that were told that their process leads and have not
-- taken the mutex yet.
pub record Cluster : Type 0 where
  pub leads : ℕ → Bool
  pub locker : ℕ → Locker
  pub holders : ℕ → Holders
  pub asking : ℕ → Holders

unfoldable pub new_cluster : Cluster
new_cluster = record {
  leads = λ _. false;
  locker = λ _. new_locker;
  holders = λ _. λ _. 0;
  asking = λ _. λ _. 0;
}

-- Lock up to `l.leader.IsLeader()`: a process that does not lead is refused and nothing changes.
unfoldable pub ask_at : ℕ → String → Cluster → Cluster
ask_at p key c = record c {
  asking = at p (if c.leads p then after_lock key granted (c.asking p) else c.asking p) c.asking;
}

-- The rest of Lock, with the mutex
unfoldable pub lock_at : ℕ → String → Cluster → Cluster
lock_at p key c =
    let (l, r) = lock true key (c.locker p) in
    record c {
      locker = at p l c.locker;
      holders = at p (after_lock key r (c.holders p)) c.holders;
      asking = at p (after_unlock key (c.asking p)) c.asking;
    }

unfoldable pub unlock_at : ℕ → String → Cluster → Cluster
unlock_at p key c = record c {
  locker = at p (unlock key (c.locker p)) c.locker;
  holders = at p (after_unlock key (c.holders p)) c.holders;
}

unfoldable pub elect : (ℕ → Bool) → Cluster → Cluster
elect leads c = record c { leads = leads }

-- The states of a cluster whose leader changes only while the processes that lose hold no key, and are in no Lock between
-- its two steps.
pub data Reach : Cluster → Type 0 where
  begin : Reach new_cluster
  asks : {c : Cluster} (p : ℕ) (key : String) → Reach c → Reach (ask_at p key c)
  locks :
      {c : Cluster} (p : ℕ) (key : String) → 0 < c.asking p key → Reach c → Reach (lock_at p key c)
  unlocks :
      {c : Cluster} (p : ℕ) (key : String)
      → 0 < c.holders p key
      → Reach c
      → Reach (unlock_at p key c)
  elects :
      {c : Cluster} (leads : ℕ → Bool)
      → ((p q : ℕ) → leads p ≡ true → leads q ≡ true → p ≡ q)
      → ((p : ℕ) (key : String) → 0 < c.holders p key + c.asking p key → leads p ≡ true)
      → Reach c
      → Reach (elect leads c)

Reach-Run : {c : Cluster} → Reach c → (p : ℕ) → Run (c.locker p) (c.holders p)
unfolding new_cluster ask_at lock_at unlock_at elect
Reach-Run begin p = start
Reach-Run (asks p key r) q = Reach-Run r q
Reach-Run (locks {c} p key asked r) q = elim (Bool-cases (p == q)) [
  | inl here ↦ rw here (calls_lock true key (Reach-Run r p))
  | inr there ↦ rw there (Reach-Run r q)
]
Reach-Run (unlocks {c} p key held r) q = elim (Bool-cases (p == q)) [
  | inl here ↦ rw here (calls_unlock key held (Reach-Run r p))
  | inr there ↦ rw there (Reach-Run r q)
]
Reach-Run (elects leads one stays r) p = Reach-Run r p

one_leader : {c : Cluster} → Reach c → (p q : ℕ) → c.leads p ≡ true → c.leads q ≡ true → p ≡ q
unfolding new_cluster ask_at lock_at unlock_at elect
one_leader begin p q hp hq = cc
one_leader (asks i key r) p q hp hq = one_leader r p q hp hq
one_leader (locks i key asked r) p q hp hq = one_leader r p q hp hq
one_leader (unlocks i key held r) p q hp hq = one_leader r p q hp hq
one_leader (elects leads one stays r) p q hp hq = one p q hp hq

-- What a step adds to the holders and the calls that ask was there before, or is added to a leader.
asked_by_leader :
    (b : Bool) (k j : String) (n : ℕ) (h : Holders)
    → (0 < n + h j → b ≡ true)
    → 0 < n + (if b then after_lock k granted h else h) j
    → b ≡ true
asked_by_leader true k j n h before held = refl
asked_by_leader false k j n h before held = before held

locked_by_asking :
    (k j : String) (l : Locker) (h a : Holders)
    → 0 < a k
    → 0 < after_lock k (lock true k l).1 h j + after_unlock k a j
    → (0 < h j + a j) ⊎ (k ≡ j)
unfolding lock
locked_by_asking k j l h a asked held = elim (Bool-cases (k == j)) [
  | inl same ↦ inr ((==_iff k j).0 same)
  | inr other ↦ inl (ground arith)
]

held_before : (k j : String) (h : Holders) (n : ℕ) → 0 < after_unlock k h j + n → 0 < h j + n
held_before k j h n held = ground arith

busy_leads :
    {c : Cluster}
    → Reach c
    → (p : ℕ) (key : String) → 0 < c.holders p key + c.asking p key
    → c.leads p ≡ true
unfolding new_cluster ask_at lock_at unlock_at elect
busy_leads begin p key held = absurd (omega (arith, held))
busy_leads (asks {c} i k r) p key held = elim (Bool-cases (i == p)) [
  | inl here ↦
      let same = (==_iff i p).0 here in
      subst (λ q. c.leads q ≡ true) same
        (asked_by_leader (c.leads i) k key (c.holders i key) (c.asking i) (busy_leads r i key) (
          subst
            (λ q.
              0
              < c.holders q key
                + (if c.leads i then after_lock k granted (c.asking i) else c.asking i) key)
            (sym same) (rw here at held)))
  | inr there ↦ busy_leads r p key (rw there at held)
]
busy_leads (locks {c} i k asked r) p key held = elim (Bool-cases (i == p)) [
  | inl here ↦
      subst (λ q. c.leads q ≡ true) ((==_iff i p).0 here)
        (elim (locked_by_asking k key (c.locker i) (c.holders i) (c.asking i) asked
          (rw here at held)) [
            | inl before ↦ busy_leads r i key before
            | inr same ↦ busy_leads r i k (omega (arith, asked))
          ])
  | inr there ↦ busy_leads r p key (rw there at held)
]
busy_leads (unlocks {c} i k was r) p key held = elim (Bool-cases (i == p)) [
  | inl here ↦
      let same = (==_iff i p).0 here in
      subst (λ q. c.leads q ≡ true) same
        (busy_leads r i key (
          held_before k key (c.holders i) (c.asking i key) (
            subst (λ q. 0 < after_unlock k (c.holders i) key + c.asking q key) (sym same)
              (rw here at held))))
  | inr there ↦ busy_leads r p key (rw there at held)
]
busy_leads (elects leads one stays r) p key held = stays p key held

held_by_leader :
    {c : Cluster} → Reach c → (p : ℕ) (key : String) → 0 < c.holders p key → c.leads p ≡ true
held_by_leader {c} r p key held = busy_leads r p key (omega (arith, held))

-- While the leader changes only when the processes that lose hold no key, and have no call of Lock that was told that they
-- lead and has not taken the mutex, a key has one holder in the whole cluster: two that hold it are in one process,
-- which leads, and are the same holder.
pub cluster_excludes :
    {c : Cluster}
    → Reach c
    → (p q : ℕ) (key : String) → 0 < c.holders p key
    → 0 < c.holders q key
    → (p ≡ q) × (c.holders p key ≡ 1) × (c.leads p ≡ true)
cluster_excludes {c} r p q key held_p held_q =
    let leads_p = held_by_leader r p key held_p in
    let leads_q = held_by_leader r q key held_q in
    let (once, free, others) = locker_excludes (Reach-Run r p) key in
    (one_leader r p q leads_p leads_q, omega (arith, held_p, once), leads_p)

-- A leader change while a job runs does not keep the new leader from granting the key of the job: if a process holds a key and
-- another becomes the leader, the next Lock of the other, which no further change interrupts, is granted, and both hold
-- the key. It is the first such change: those before it came while the processes that lost held no key, and had no
-- call of Lock that was told that they lead and had not taken the mutex.
pub new_leader_overlaps :
    {c : Cluster}
    → Reach c
    → (p q : ℕ) (key : String) (leads : ℕ → Bool) → 0 < c.holders p key
    → p ≢ q
    → leads q ≡ true
    → (let after = lock_at q key (ask_at q key (elect leads c)) in
        (after.holders p key ≡ c.holders p key) × (after.holders q key ≡ 1))
new_leader_overlaps {c} r p q key leads held_p other leads_q =
    let (once, free, others) = locker_excludes (Reach-Run r q) key in
    let given = free.1 nothing in
    unfold lock_at ask_at elect in (rw apart refl, rw (q_q, given, key_key, nothing) refl)
  where
    nothing : c.holders q key ≡ 0
    nothing = elim (dec_lt 0 (c.holders q key)) [
      | yes held_q ↦ absurd (other (cluster_excludes r p q key held_p held_q).0)
      | no none_held ↦ omega arith
    ]

    apart : (q == p) ≡ false
    apart = elim (Bool-cases (q == p)) [
      | inl same ↦ absurd (other (sym ((==_iff q p).0 same)))
      | inr differ ↦ differ
    ]

    q_q : (q == q) ≡ true
    q_q = (==_iff q q).1 refl

    key_key : (key == key) ≡ true
    key_key = (==_iff key key).1 refl
