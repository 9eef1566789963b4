-- ===== src/Store/Transactions.antt =====
-- A write transaction commits what its body wrote or leaves the database alone.
use quidz.Prelude.{◌≡◌, refl, ap, sym, ◌∙◌, Bool-cases, false, inl, inr}
use quidz.Errors.{Exn, Result, ok, raise}
use quidz.Store.{Db, Connection, Exec, close_tx, write_tx}

abbrev pub closed : Db → Connection
closed db = record { db = db; in_transaction = false }

module _ {A : Type 0} where
  -- The transaction was committed with this value and state of the database.
  pub record Committed (body : Exec A) (conn : Connection) (a : A) (conn' : Connection)
      : Type 0 where
    pub idle : conn.in_transaction ≡ false
    pub ran : body conn.db ≡ (ok a, conn'.db)
    pub ended : conn' ≡ closed conn'.db

  close_tx-cases :
      (before : Db) (p : Result A × Db) {a : A} {conn' : Connection}
      → close_tx before p ≡ (ok a, conn')
      → (p ≡ (ok a, conn'.db)) × (conn' ≡ closed conn'.db)
  close_tx-cases before (ok b, db) h = (
    cc (ap (λ z. z.0) h, ap (λ z. z.1.db) h),
    sym (ap (λ z. z.1) h) ∙ ap closed (ap (λ z. z.1.db) h),
  )
  close_tx-cases before (raise e, db) h = cc

  pub write_tx-Committed :
      (body : Exec A) (conn : Connection) {a : A} {conn' : Connection}
      → write_tx body conn ≡ (ok a, conn')
      → Committed body conn a conn'
  unfolding write_tx
  write_tx-Committed body conn h = elim (Bool-cases conn.in_transaction) [
    | inl t ↦ (let h' = rw t at h in cc)
    | inr f ↦
        (let (x, y) = close_tx-cases conn.db (body conn.db) (rw f at h) in
          record { idle = f; ran = x; ended = y })
  ]

  close_tx-raise :
      (before : Db) (p : Result A × Db) {e : Exn} {conn' : Connection}
      → close_tx before p ≡ (raise e, conn')
      → conn'.db ≡ before
  close_tx-raise before (ok b, db) h = cc
  close_tx-raise before (raise x, db) h = sym (ap (λ z. z.1.db) h)

  -- A transaction that raises leaves the database exactly as it was, whatever its body had written.
  pub write_tx-raise :
      (body : Exec A) (conn : Connection) {e : Exn} {conn' : Connection}
      → write_tx body conn ≡ (raise e, conn')
      → conn'.db ≡ conn.db
  unfolding write_tx
  write_tx-raise body conn h = elim (Bool-cases conn.in_transaction) [
    | inl t ↦ (let h' = rw t at h in cc)
    | inr f ↦ close_tx-raise conn.db (body conn.db) (rw f at h)
  ]

  pub write_tx-idle : (body : Exec A) (db : Db) → write_tx body (closed db) ≡ close_tx db (body db)
  unfolding write_tx
  write_tx-idle body db = refl
