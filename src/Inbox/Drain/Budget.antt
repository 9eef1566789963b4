-- ===== src/Inbox/Drain/Budget.antt =====
-- The two counters of the retry budget, through a drain (`_budget_used` and `_record_budget` of
-- src/quidz/inbox.py).
use quidz.Prelude.{
  ℕ, ◌+◌, ◌≡◌, refl, ap, ◌∙◌, Bool-cases, true, false, inl, inr, List, [], ◌∷◌, some, String,
  str_eq, eq_iff, if◌then◌else◌, arith,
}
use quidz.Prelude.Int.{ℤ, pos, ◌+ℤ◌, eqb_ℤ}
use quidz.Errors.{Exn, Result, ok, raise}
use quidz.Event.{CanonicalEvent}
use quidz.Python.{Python}
use quidz.Store.{DeliveryState, Delivery, Db, continue, ◌>>=◌, get_counter, upsert_counter}
use quidz.Metrics.{bump}
use quidz.Ledger.{ApplyOutcome, apply_delivery}
use quidz.Ledger.Once.{apply_delivery_atomic}
use quidz.Dlq.{RetryPolicy, Random, classify, should_retry}
use quidz.Inbox.{decode}
use quidz.Inbox.Drain.{DrainReport, minute_of, budget_used, record_budget, settle, Pass, process}
use quidz.Inbox.Drain.Steps.{failed, settled, after_row, after_rows}

get_counter-other :
    (name other : String) (v : ℤ) (merge : ℤ → ℤ) (cs : List (String × ℤ))
    → str_eq other name ≡ false
    → get_counter name (upsert_counter other v merge cs) ≡ get_counter name cs
get_counter-other name other v merge [] ne = rw ne refl
get_counter-other name other v merge ((n, w) ∷ cs) ne = elim (Bool-cases (str_eq n other)) [
  | inl h ↦
      (let apart : str_eq n name ≡ false = ground (arith, eq_iff n other, ne) in rw (h, apart) refl)
  | inr h ↦
      rw h
        (ap (λ o. if str_eq n name then some w else o) (get_counter-other name other v merge cs ne))
]

get_counter-set :
    (name : String) (v : ℤ) (cs : List (String × ℤ))
    → get_counter name (upsert_counter name v (λ _. v) cs) ≡ some v
get_counter-set name v [] = rw ((eq_iff name name).1 refl) refl
get_counter-set name v ((n, w) ∷ cs) = elim (Bool-cases (str_eq n name)) [
  | inl h ↦ rw (h, h) refl
  | inr h ↦ rw (h, h) (get_counter-set name v cs)
]

eqb_ℤ-refl : (n : ℤ) → eqb_ℤ n n ≡ true
eqb_ℤ-refl n = ground arith

-- What `_record_budget` writes is what `_budget_used` reads in the same minute.
budget_used-record :
    (now : ℕ) (used : ℤ) (db : Db) → budget_used (record_budget now used db) now ≡ used
unfolding budget_used record_budget
budget_used-record now used db =
    rw
      (
        get_counter-other "retry_budget_minute" "retry_budget_used" used (λ _. used)
            (upsert_counter "retry_budget_minute" (minute_of now) (λ _. minute_of now) db.counters)
            refl,
        get_counter-set "retry_budget_minute" (minute_of now) db.counters,
        eqb_ℤ-refl (minute_of now),
        get_counter-set "retry_budget_used" used
            (upsert_counter "retry_budget_minute" (minute_of now) (λ _. minute_of now) db.counters),
      )
      refl

-- Another counter does not matter to the budget.
budget_used-other :
    (now : ℕ) (name : String) (v : ℤ) (merge : ℤ → ℤ) (db : Db)
    → str_eq name "retry_budget_minute" ≡ false
    → str_eq name "retry_budget_used" ≡ false
    → budget_used (record db { counters = upsert_counter name v merge db.counters }) now
      ≡ budget_used db now
unfolding budget_used
budget_used-other now name v merge db m u =
    rw
      (
        get_counter-other "retry_budget_minute" name v merge db.counters m,
        get_counter-other "retry_budget_used" name v merge db.counters u,
      )
      refl

-- The budget reads counters, and nothing else.
budget_used-same :
    (now : ℕ) (a b : Db) → a.counters ≡ b.counters → budget_used a now ≡ budget_used b now
unfolding budget_used
budget_used-same now a b h = rw h refl

settle-budget :
    (did : String) (was : DeliveryState) (o : ApplyOutcome) (at : ℕ) (policy : RetryPolicy)
    (now : ℕ) (db : Db)
    → budget_used (settle did was o at policy db).1 now ≡ budget_used db now
unfolding settle bump
settle-budget did DeliveryState.parked ApplyOutcome.parked at policy now db =
    budget_used-same now _ _ refl
settle-budget did _ ApplyOutcome.parked at policy now db =
    budget_used-other now "parked" _ _ _ refl refl ∙ budget_used-same now _ _ refl
settle-budget did was ApplyOutcome.noop_duplicate at policy now db =
    budget_used-other now "deduped" _ _ _ refl refl ∙ budget_used-same now _ _ refl
settle-budget did was _ at policy now db =
    budget_used-other now "applied" _ _ _ refl refl ∙ budget_used-same now _ _ refl

apply_delivery-budget :
    (did : String) (e : CanonicalEvent) (now : ℕ) (db : Db)
    → budget_used (apply_delivery did e db).1 now ≡ budget_used db now
apply_delivery-budget did e now db = elim (apply_delivery_atomic did e db refl) [
  | inl (same, _) ↦ budget_used-same now _ _ (ap (λ z. z.counters) same)
  | inr (_, a) ↦ budget_used-same now _ _ (ap (λ z. z.counters) a.written)
]

module _ (python : Python) (random : Random) where
  applied-budget :
      (row : Delivery) (now : ℕ) (policy : RetryPolicy) (start : ℤ) (q : Result ApplyOutcome × Db)
      → budget_used q.1 now ≡ start
      → budget_used
          (continue q (λ outcome. settle row.delivery_id row.state outcome now policy)).1
          now
        ≡ start
  applied-budget row now policy start (ok o, db) h =
      settle-budget row.delivery_id row.state o now policy now db ∙ h
  applied-budget row now policy start (raise e, db) h = h

  decoded-budget :
      (row : Delivery) (now : ℕ) (policy : RetryPolicy) (db : Db) (e : Result CanonicalEvent)
      → budget_used
          (continue
            (e, db)
            (λ event.
              ◌>>=◌
                (apply_delivery row.delivery_id event)
                (λ outcome. settle row.delivery_id row.state outcome now policy))).1
          now
        ≡ budget_used db now
  decoded-budget row now policy db (ok e) =
      applied-budget row now policy (budget_used db now) (apply_delivery row.delivery_id e db)
        (apply_delivery-budget row.delivery_id e now db)
  decoded-budget row now policy db (raise x) = refl

  process-budget :
      (row : Delivery) (now : ℕ) (policy : RetryPolicy) (db : Db)
      → budget_used (process python random row now policy db).1 now ≡ budget_used db now
  unfolding process
  process-budget row now policy db =
      decoded-budget row now policy db (decode python row.provider row.raw)

  -- The pass carries what the counters say.
  abbrev Carried : ℕ → Pass python random × Db → Type 0
  Carried now (p, db) = budget_used db now ≡ p.used

  failed-Carried :
      (row : Delivery) (now : ℕ) (policy : RetryPolicy) (exc : Exn) (p : Pass python random)
      (db : Db)
      → Carried now (p, db)
      → Carried now (failed python random row now policy exc p db)
  failed-Carried row now policy exc p db h =
      elim (Bool-cases (should_retry policy (classify exc) (row.attempts + 1) p.used)) [
        | inl r ↦ rw r (budget_used-record now (p.used +ℤ pos 1) _)
        | inr r ↦ rw r (
            budget_used-other now "dead_lettered" _ _ _ refl refl
            ∙ budget_used-same now _ _ refl
            ∙ h)
      ]

  settled-Carried :
      (row : Delivery) (now : ℕ) (policy : RetryPolicy) (p : Pass python random) (db : Db)
      (q : Result DrainReport × Db)
      → budget_used q.1 now ≡ budget_used db now
      → Carried now (p, db)
      → Carried now (settled python random row now policy p db q)
  settled-Carried row now policy p db (ok report, db') same h = same ∙ h
  settled-Carried row now policy p db (raise exc, db') same h =
      failed-Carried row now policy exc p db h

  pub after_rows-budget :
      (rows : List Delivery) (now : ℕ) (policy : RetryPolicy) (p : Pass python random) (db : Db)
      → budget_used db now ≡ p.used
      → budget_used (after_rows python random rows now policy (p, db)).1 now
        ≡ (after_rows python random rows now policy (p, db)).0.used
  after_rows-budget [] now policy p db h = h
  after_rows-budget (row ∷ rows) now policy p db h =
      let (p', db') = after_row python random row now policy p db in
      after_rows-budget rows now policy p' db' (
        settled-Carried row now policy p db (process python random row now policy db)
          (process-budget row now policy db) h)
