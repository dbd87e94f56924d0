-- ===== src/Queue/Options.antt =====
-- queue/options.go and queue/types.go: a job, its options, and the queue that they name. The interface
-- Option with its five implementations is a data type; Type and Value are a match on it.
use windowframe.Prelude.{ℕ, ℤ, String, ◌≡◌, refl, Bool, true, false, List, [], ◌∷◌, ◌++◌}

pub data QueueOption : Type 0 where
  on_queue : String → QueueOption
  at : ℕ → QueueOption
  after : ℤ → QueueOption
  id : String → QueueOption
  max_tries : ℤ → QueueOption

-- An instant in nanoseconds; the payload in bytes.
pub record Job : Type 0 where
  pub id : String
  pub task : String
  pub created_at : ℕ
  pub payload : List ℕ
  pub options : List QueueOption

unfoldable pub new_job : ℕ → String → String → List ℕ → List QueueOption → Job
new_job now job_id task payload options = record {
  id = job_id;
  task = task;
  created_at = now;
  payload = payload;
  options = options;
}

-- QueueFromOptions: the loop breaks at the first OnQueue.
unfoldable pub queue_from_options : List QueueOption → String
queue_from_options [] = "default"
queue_from_options (on_queue q ∷ opts) = q
queue_from_options (_ ∷ opts) = queue_from_options opts

abbrev pub is_on_queue : QueueOption → Bool
is_on_queue (on_queue q) = true
is_on_queue _ = false

abbrev pub NoneOnQueue : List QueueOption → Type 0
NoneOnQueue [] = Unit
NoneOnQueue (o ∷ opts) = (is_on_queue o ≡ false) × NoneOnQueue opts

-- The first OnQueue decides, wherever it stands and whatever follows.
pub queue_from_options_first :
    (xs ys : List QueueOption) (q : String)
    → NoneOnQueue xs
    → queue_from_options (xs ++ on_queue q ∷ ys) ≡ q
unfolding queue_from_options
queue_from_options_first [] ys q h = refl
queue_from_options_first (on_queue p ∷ xs) ys q h = cc
queue_from_options_first (at t ∷ xs) ys q h = queue_from_options_first xs ys q h.1
queue_from_options_first (after d ∷ xs) ys q h = queue_from_options_first xs ys q h.1
queue_from_options_first (id i ∷ xs) ys q h = queue_from_options_first xs ys q h.1
queue_from_options_first (max_tries n ∷ xs) ys q h = queue_from_options_first xs ys q h.1

-- Options that name no queue, put behind the others, do not change the queue.
pub queue_from_options-append :
    (xs ys : List QueueOption)
    → NoneOnQueue ys
    → queue_from_options (xs ++ ys) ≡ queue_from_options xs
unfolding queue_from_options
queue_from_options-append [] [] h = refl
queue_from_options-append [] (on_queue p ∷ ys) h = cc
queue_from_options-append [] (at t ∷ ys) h = queue_from_options-append [] ys h.1
queue_from_options-append [] (after t ∷ ys) h = queue_from_options-append [] ys h.1
queue_from_options-append [] (id t ∷ ys) h = queue_from_options-append [] ys h.1
queue_from_options-append [] (max_tries t ∷ ys) h = queue_from_options-append [] ys h.1
queue_from_options-append (on_queue p ∷ xs) ys h = refl
queue_from_options-append (at t ∷ xs) ys h = queue_from_options-append xs ys h
queue_from_options-append (after t ∷ xs) ys h = queue_from_options-append xs ys h
queue_from_options-append (id t ∷ xs) ys h = queue_from_options-append xs ys h
queue_from_options-append (max_tries t ∷ xs) ys h = queue_from_options-append xs ys h
