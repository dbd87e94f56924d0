-- ===== src/Workers/Locker.antt =====
-- workers/locker.go: the lock that gocron takes around a job. Whether this process is the leader is an
-- argument of each call, since rueidisleader decides it.
use windowframe.Prelude.{
  ℕ, suc, ◌-◌, ◌<◌, ◌≤◌, String, String_comparable, ◌==◌, ==_iff, ◌≡◌, ◌↔◌, refl, Bool, true, false,
  Option, none, some, [], Assoc, lookup, insert, erase, lookup-insert, lookup-erase, arith,
  if◌then◌else◌,
}
use windowframe.Errors.{Err, foreign}

pub record Locker : Type 0 where
  pub locks : Assoc String Bool

unfoldable pub new_locker : Locker
new_locker = record { locks = [] }

-- (gocron.Lock, error): a fakeLock that releases its key, or an error.
pub data LockResult : Type 0 where
  granted : LockResult
  refused : Err → LockResult

abbrev lock_free : String → Locker → Option Bool → Locker × LockResult
lock_free key l (some b) = (l, refused (foreign "already locked"))
lock_free key l none = (record l { locks = insert key true l.locks }, granted)

-- Lock
unfoldable pub lock : Bool → String → Locker → Locker × LockResult
lock is_leader key l =
    if is_leader
    then lock_free key l (lookup key l.locks)
    else (l, refused (foreign "not the leader"))

-- Unlock of the fakeLock that a granted Lock returned
unfoldable pub unlock : String → Locker → Locker
unlock key l = record l { locks = erase key l.locks }

-- The number of locks of each key that were granted and not released.
abbrev pub Holders : Type 0
Holders = String → ℕ

abbrev pub after_lock : String → LockResult → Holders → Holders
after_lock key (refused e) h j = h j
after_lock key granted h j = if key == j then suc (h j) else h j

abbrev pub after_unlock : String → Holders → Holders
after_unlock key h j = if key == j then h j - 1 else h j

-- What the jobs of a process do to its locker: a call of Lock, as leader or not, or Unlock by a holder.
-- The mutex makes each a single step.
pub data Run : Locker → Holders → Type 0 where
  start : Run new_locker (λ _. 0)
  calls_lock :
      {l : Locker} {h : Holders} (is_leader : Bool) (key : String)
      → Run l h
      → Run (lock is_leader key l).0 (after_lock key (lock is_leader key l).1 h)
  calls_unlock :
      {l : Locker} {h : Holders} (key : String)
      → 0 < h key
      → Run l h
      → Run (unlock key l) (after_unlock key h)

abbrev count : Option Bool → ℕ
count none = 0
count (some b) = 1

lock_counts :
    (is_leader : Bool) (key : String) (l : Locker) (h : Holders) (j : String)
    → ((i : String) → h i ≡ count (lookup i l.locks))
    → after_lock key (lock is_leader key l).1 h j ≡ count (lookup j (lock is_leader key l).0.locks)
unfolding lock
lock_counts is_leader key l h j ih =
    ground (arith, ih j, ih key, lookup-insert key j true l.locks, ==_iff key j)

unlock_counts :
    (key : String) (l : Locker) (h : Holders) (j : String)
    → ((i : String) → h i ≡ count (lookup i l.locks))
    → after_unlock key h j ≡ count (lookup j (unlock key l).locks)
unfolding unlock
unlock_counts key l h j ih = ground (arith, ih j, ih key, lookup-erase key j l.locks, ==_iff key j)

run_counts : {l : Locker} {h : Holders} → Run l h → (j : String) → h j ≡ count (lookup j l.locks)
unfolding new_locker
run_counts start j = unfold lookup in refl
run_counts (calls_lock is_leader key r) j = lock_counts is_leader key _ _ j (run_counts r)
run_counts (calls_unlock key held r) j = unlock_counts key _ _ j (run_counts r)

free_iff :
    (key : String) (l : Locker) (o : Option Bool) (n : ℕ)
    → n ≡ count o
    → (n ≤ 1) × (((lock_free key l o).1 ≡ granted) ↔ (n ≡ 0))
free_iff key l none n e = ground arith
free_iff key l (some b) n e = ground arith

-- Whatever sequence of Lock and Unlock by holders a process has run, no key is held twice; a
-- process that leads is granted a key exactly if nobody in it holds the key; and one that does not lead is
-- refused and its locks stay.
pub locker_excludes :
    {l : Locker} {h : Holders}
    → Run l h
    → (key : String)
    → (h key ≤ 1)
      × (((lock true key l).1 ≡ granted) ↔ (h key ≡ 0))
      × (lock false key l ≡ (l, refused (foreign "not the leader")))
unfolding lock
locker_excludes {l} {h} r key =
    let (once, free) = free_iff key l (lookup key l.locks) (h key) (run_counts r key) in
    (once, free, refl)
