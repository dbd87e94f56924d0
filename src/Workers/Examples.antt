-- ===== src/Workers/Examples.antt =====
-- Workers that run and lock, and the theorems there.
use windowframe.Prelude.{
  ℕ, Bool, ◌==◌, ==_iff, ℕ_comparable, String, arith, ◌<◌, ◌+◌, sym, ◌∙◌, suc, pos,
  String_comparable, ◌≡◌, refl, true, Option, none, some, List, [], ◌∷◌, lookup, insert,
}
use windowframe.Errors.{Err, foreign}
use windowframe.Workers.Cluster.{
  Cluster, new_cluster, ask_at, lock_at, elect, Reach, begin, asks, locks, elects, cluster_excludes,
  new_leader_overlaps,
}
use windowframe.Workers.Locker.{Locker, new_locker, lock, refused, Holders, after_lock}
use windowframe.Workers.Runner.{Worker, duration, text, JobDefinition, cron_job, Job}

abbrev held_once : Locker
held_once = (lock true "mail" new_locker).0

abbrev one_holder : Holders
one_holder = after_lock "mail" (lock true "mail" new_locker).1 (λ _. 0)

second_lock : (lock true "mail" held_once).1 ≡ refused (foreign "already locked")
unfolding lock new_locker lookup insert
second_lock = refl

abbrev mail : Worker ℕ
mail = record { name = "mail"; run = λ n. (suc n, none); interval = duration (pos 5) }

abbrev broken : Worker ℕ
broken = record { name = "broken"; run = λ n. (n, some (foreign "boom")); interval = text "@daily" }

abbrev take_all : Job ℕ → Option Err
take_all job = none

abbrev hourly : Worker ℕ → JobDefinition
hourly w = cron_job "@hourly"

abbrev ws : List (Worker ℕ)
ws = mail ∷ broken ∷ mail ∷ []

-- The process 0 leads, and a job of it holds a key.
abbrev zero_leads : ℕ → Bool
zero_leads p = p == 0

one_leads : (p q : ℕ) → zero_leads p ≡ true → zero_leads q ≡ true → p ≡ q
one_leads p q hp hq = (==_iff p 0).0 hp ∙ sym ((==_iff q 0).0 hq)

abbrev asked : Cluster
asked = ask_at 0 "mail" (elect zero_leads new_cluster)

abbrev mailing : Cluster
mailing = lock_at 0 "mail" asked

reach_mailing : Reach mailing
reach_mailing =
    locks {c = asked} 0 "mail" (unfold ask_at elect new_cluster in (omega arith))
      (asks 0 "mail" (elects zero_leads one_leads none_held begin))
  where
    none_held :
        (p : ℕ) (key : String)
        → 0 < new_cluster.holders p key + new_cluster.asking p key
        → zero_leads p ≡ true
    none_held p key h = unfold new_cluster in (absurd (omega (arith, h)))

cluster_excludes_example :
    (◌≡◌ {A = ℕ} 0 0) × (mailing.holders 0 "mail" ≡ 1) × (mailing.leads 0 ≡ true)
unfolding lock_at ask_at elect new_cluster lock new_locker lookup
cluster_excludes_example = cluster_excludes reach_mailing 0 0 "mail" (omega arith) (omega arith)

new_leader_overlaps_example :
    (let after = lock_at 1 "mail" (ask_at 1 "mail" (elect (λ p. p == 1) mailing)) in
      (after.holders 0 "mail" ≡ mailing.holders 0 "mail") × (after.holders 1 "mail" ≡ 1))
unfolding lock_at ask_at elect new_cluster lock new_locker lookup
new_leader_overlaps_example =
    new_leader_overlaps reach_mailing 0 1 "mail" (λ p. p == 1) (omega arith)
      (λ e. absurd (omega arith)) refl
