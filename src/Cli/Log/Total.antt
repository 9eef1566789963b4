-- ===== src/Cli/Log/Total.antt =====
-- When the delivery log is written (`_write_log` of src/quidz/cli.py).
use quidz.Prelude.{String, refl, ap, ◌∙◌, List, [], ◌∷◌, map}
use quidz.Prelude.Order.{sort_by}
use quidz.Errors.{Returns, bind-Returns}
use quidz.Model.{status_text}
use quidz.Signatures.{partition}
use quidz.Store.{Delivery, Db}
use quidz.Inbox.Keyed.{Bodies, Keyed, AllKeyed, sort_by-AllKeyed, partition-key}
use quidz.Inbox.Drain.{earlier}
use quidz.Cli.{terminal}
use quidz.Cli.Log.{Codec, after_colon, delivery_line, log_lines, write_log}

module _ (codec : Codec) (q : Bodies) where
  delivery_line-Returns : (d : Delivery) → Keyed q d → Returns (delivery_line codec d)
  delivery_line-Returns d k =
      bind-Returns (after_colon (partition b':' d.delivery_id)) _
        (
          k.identity,
          ap after_colon (ap (partition b':') k.key ∙ partition-key d.provider k.identity),
        )
        (λ identity. (_, refl))

  log_lines-Returns :
      (ds : List Delivery) (payments : List (String × String))
      → AllKeyed q ds
      → Returns (log_lines codec ds payments)
  log_lines-Returns [] payments a = (_, refl)
  log_lines-Returns (d ∷ ds) payments (k, ks) =
      bind-Returns (delivery_line codec d) _ (delivery_line-Returns d k) (λ line.
        bind-Returns (log_lines codec ds payments) _ (log_lines-Returns ds payments ks)
          (λ rest. (_, refl)))

  pub write_log-Returns : (db : Db) → AllKeyed q db.deliveries → Returns (write_log codec db)
  unfolding write_log
  write_log-Returns db a =
      log_lines-Returns (sort_by earlier db.deliveries)
        (map (λ p. (p.0, status_text p.1)) (terminal db))
        (sort_by-AllKeyed q earlier db.deliveries a)
