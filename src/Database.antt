-- ===== src/Database.antt =====
-- database/postgres: the migrator and the opening of connections. golang-migrate is a parameter: its calls work on the
-- state `S` of a database and return the text of an error. The database libraries are given by their errors.
use windowframe.Prelude.{
  ◌≡◌, refl, ap, sym, ◌∙◌, String, String_comparable, ◌==◌, ==_iff, Bool, true, false, Option, none,
  some, List, [], ◌∷◌, ℤ, pos, negsuc, zero, suc, if◌then◌else◌, arith,
}
use windowframe.Errors.{Err, foreign, wrap}

abbrev Call : Type 0 → Type 0
Call S = S → S × Option String

-- migrate.Migrate
pub record Migrate (S : Type 0) : Type 0 where
  pub up : Call S
  pub down : Call S
  pub drop : Call S
  pub steps : ℤ → Call S

-- Up returns ErrNoChange, whose text is "no change", once every migration has been applied.
record IsSettling {S : Type 0} (m : Migrate S) : Type 0 where
  again : (s : S) → (m.up s).1 ≡ none → m.up (m.up s).0 ≡ ((m.up s).0, some "no change")
  no_change :
      (s : S) → (m.up s).1 ≡ some "no change" → m.up (m.up s).0 ≡ ((m.up s).0, some "no change")

abbrev negated : ℤ → ℤ
negated (pos zero) = pos zero
negated (pos (suc n)) = negsuc n
negated (negsuc n) = pos (suc n)

module _ {S : Type 0} where
  abbrev unless_no_change : S × Option String → S × Option String
  unless_no_change (s, none) = (s, none)
  unless_no_change (s, some e) = (s, if e == "no change" then none else some e)

  -- Migrator.Up, Down and Rollback
  unfoldable up : Migrate S → Call S
  up m s = unless_no_change (m.up s)

  unfoldable down : Migrate S → Call S
  down m s = unless_no_change (m.down s)

  unfoldable rollback : Migrate S → ℤ → Call S
  rollback m steps s = unless_no_change (m.steps (negated steps) s)

  abbrev after_drop : Migrate S → S × Option String → S × Option Err
  after_drop m (s, some e) = (s, some (wrap "drop db" (foreign e)))
  after_drop m (s, none) =
      let (s1, e) = m.up s in (s1, elim e [ none ↦ none | some t ↦ some (foreign t) ])

  -- Migrator.Fresh, where "no change" is an error
  unfoldable fresh : Migrate S → S → S × Option Err
  fresh m s = after_drop m (m.drop s)

  up_settled :
      (m : Migrate S) (s : S) (r : Option String)
      → IsSettling m
      → (m.up s).1 ≡ r
      → (unless_no_change ((m.up s).0, r)).1 ≡ none
      → m.up (m.up s).0 ≡ ((m.up s).0, some "no change")
  up_settled m s none laws e ok = laws.again s e
  up_settled m s (some t) laws e ok =
      laws.no_change s (e ∙ ap some ((==_iff t "no change").0 (ground arith)))

  state_kept : (p : S × Option String) → (unless_no_change p).0 ≡ p.0
  state_kept (s, none) = refl
  state_kept (s, some e) = refl

  -- Up is idempotent: once it has returned no error, it returns none again and leaves the database as it is.
  up-up :
      (m : Migrate S) (s : S)
      → IsSettling m
      → (up m s).1 ≡ none
      → up m (up m s).0 ≡ ((up m s).0, none)
  unfolding up
  up-up m s laws ok =
      ap (λ (t : S). unless_no_change (m.up t)) (state_kept (m.up s))
      ∙ ap unless_no_change (up_settled m s (m.up s).1 laws refl ok)
      ∙ ap (λ (t : S). (t, none)) (sym (state_kept (m.up s)))

-- What is open when a function returns
pub data Resource : Type 0 where
  sql_db pgx_pool : Resource

pub record Opened : Type 0 where
  pub error : Option Err
  pub left_open : List Resource

abbrev pinged : Option Err → Opened
pinged none = record { error = none; left_open = sql_db ∷ [] }
pinged (some e) = record { error = some e; left_open = sql_db ∷ [] }

-- Open, from the errors of opening and of PingContext: a database that does not answer is not closed.
unfoldable open_db : Option Err → Option Err → Opened
open_db (some e) ping = record { error = some e; left_open = [] }
open_db none ping = pinged ping

abbrev recorded : Bool → Option Err → Opened
recorded true (some e) = record {
  error = some (wrap "insturment pgx tracer" e);
  left_open = pgx_pool ∷ [];
}
recorded true none = record { error = none; left_open = pgx_pool ∷ [] }
recorded false e = record { error = none; left_open = pgx_pool ∷ [] }

abbrev pooled : Bool → Option Err → Option Err → Opened
pooled tracing (some e) stats = record {
  error = some (wrap "create pool from config" e);
  left_open = [];
}
pooled tracing none stats = recorded tracing stats

-- OpenPgx, from the errors of ParseConfig, NewWithConfig and RecordStats
unfoldable open_pgx : Bool → Option Err → Option Err → Option Err → Opened
open_pgx tracing (some e) pool stats = record {
  error = some (wrap "parse pool config" e);
  left_open = [];
}
open_pgx tracing none pool stats = pooled tracing pool stats
