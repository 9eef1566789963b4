-- ===== src/Cli/Snapshot/Written.antt =====
-- Reading the snapshot that was written (`_write_snapshot` and `_read_snapshot` of src/quidz/cli.py).
use quidz.Prelude.{String, ◌≡◌, refl, some, List, [], ◌∷◌}
use quidz.Prelude.Int.{ℤ}
use quidz.Errors.{ok}
use quidz.Python.{float, obj, get, has_key}
use quidz.Reconcile.{RemotePayment}
use quidz.Cli.{holding}
use quidz.Cli.Snapshot.{
  Json, payment_json, payments_json, snapshot_fields, write_snapshot, readable, read_payment,
  read_rows, parse_snapshot,
}

module _ (json : Json) where
  open json use {dumps, loads, float_text, to_float}

  -- A float reads back from its `repr`, as the same number of ticks.
  pub record ReadsFloats : Type 0 where
    pub same : (t : ℤ) → to_float (float (float_text t)) ≡ some t

  read_payment-json :
      ReadsFloats → (r : RemotePayment) → read_payment json (obj (payment_json json r)) ≡ readable r
  unfolding get has_key
  read_payment-json f r = rw (f.same r.created_at) refl

  read_rows-json :
      ReadsFloats → (rs : List RemotePayment) → read_rows json (payments_json json rs) ≡ readable rs
  read_rows-json f [] = refl
  read_rows-json f (r ∷ rs) = rw (read_payment-json f r, read_rows-json f rs) refl

  -- What was written is read back: where floats read back from their `repr`, and the document
  -- from its text, the snapshot holds the time of the run and the payments, each as it was.
  pub parse_snapshot-write_snapshot :
      ReadsFloats
      → (as_of seed : ℤ) (scenario : String) (payments : List RemotePayment)
      → loads (dumps (snapshot_fields json as_of seed scenario payments))
        ≡ ok (obj (snapshot_fields json as_of seed scenario payments))
      → parse_snapshot json (write_snapshot json as_of seed scenario payments)
        ≡ some (holding as_of payments)
  unfolding parse_snapshot write_snapshot get has_key
  parse_snapshot-write_snapshot f as_of seed scenario payments h =
      rw (h, f.same as_of, read_rows-json f payments) refl
