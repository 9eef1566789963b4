-- ===== src/Store/Deliveries.antt =====
-- Lookups in `deliveries` after an insert or an update.
use quidz.Prelude.{
  String, str_eq, eq_iff, ◌≡◌, refl, none, some, is_some, List, [], ◌∷◌, ◌++◌, any, if◌then◌else◌,
  arith,
}
use mathlib.Core.Option.{map as opt_map}
use quidz.Store.{Delivery, find_delivery, update_deliveries}

pub any_delivery-eq :
    (key : String) (ds : List Delivery)
    → any (λ d. str_eq d.delivery_id key) ds ≡ is_some (find_delivery key ds)
any_delivery-eq key [] = refl
any_delivery-eq key (d ∷ ds) = ground (arith, any_delivery-eq key ds)

pub find_delivery_key :
    (key : String) (ds : List Delivery) {d : Delivery}
    → find_delivery key ds ≡ some d
    → d.delivery_id ≡ key
find_delivery_key key [] h = cc
find_delivery_key key (x ∷ ds) {d} h =
    ground (arith, eq_iff x.delivery_id key, find_delivery_key key ds {d = d})

pub find_delivery-append :
    (key : String) (ds : List Delivery) (d : Delivery)
    → find_delivery key (ds ++ d ∷ []) ≡ (
        if is_some (find_delivery key ds)
        then find_delivery key ds
        else if str_eq d.delivery_id key
        then some d
        else none)
find_delivery-append key [] d = refl
find_delivery-append key (x ∷ ds) d = ground (arith, find_delivery-append key ds d)

-- An update that keeps the key changes the row that a lookup of its own key finds, and no other.
pub find_delivery-update :
    (key k : String) (change : Delivery → Delivery) (ds : List Delivery)
    → ((d : Delivery) → (change d).delivery_id ≡ d.delivery_id)
    → find_delivery k (update_deliveries key change ds)
      ≡ (if str_eq key k then opt_map change (find_delivery k ds) else find_delivery k ds)
find_delivery-update key k change [] keeps = ground arith
find_delivery-update key k change (d ∷ ds) keeps = ground (
  arith,
  find_delivery-update key k change ds keeps,
  keeps d,
  eq_iff d.delivery_id key,
  eq_iff d.delivery_id k,
  eq_iff key k,
)
