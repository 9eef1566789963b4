-- ===== src/Cli/Log/Written.antt =====
-- A log that was written can be read, and carries what the inbox accepted.
use mathlib.Core.List.{append-nil, append_assoc}
use quidz.Prelude.{
  ℕ, String, ◌≡◌, refl, sym, ap, ◌∙◌, false, some, none, ◌⊎◌, inl, inr, Bool-cases, str_eq, List,
  [], ◌∷◌, ◌++◌, map, length, arith,
}
use quidz.Prelude.Order.{sort_by}
use quidz.Errors.{ok, ◌>>=◌}
use quidz.Event.{Provider, stripe, adyen}
use quidz.Model.{status_text}
use quidz.Python.{Value, Fields, str, obj, end, field, get, has_key}
use quidz.Signatures.{partition}
use quidz.Store.{Delivery, Db}
use quidz.Inbox.{provider_text, delivery_key}
use quidz.Inbox.Keyed.{partition-key}
use quidz.Inbox.Drain.{earlier}
use quidz.Cli.{done, terminal}
use quidz.Cli.Log.{
  if_any, with_deliveries, Codec, Entry, text_fields, after_colon, provider_of, delivery_fields,
  delivery_line, terminal_line, log_lines, write_log, Read, entry_of, nothing_read, read_lines,
  read_log, item_of, state_of,
}

provider_of-text : (p : Provider) → provider_of (str (provider_text p)) ≡ some p
provider_of-text stripe = refl
provider_of-text adyen = refl

abbrev pub entry_key : Entry → Provider × String × List ℕ
entry_key e = (e.provider, delivery_key e.provider e.identity, e.raw)

abbrev pub row_key : Delivery → Provider × String × List ℕ
row_key d = (d.provider, d.delivery_id, d.raw)

abbrev pub terminal_fields : List (String × String) → Fields
terminal_fields payments =
    field "kind" (str "terminal") (field "payments" (obj (text_fields payments)) end)

-- A key of a dict of texts is in the object that it is written as, with its text, or in neither.
text_of :
    (payments : List (String × String)) (key : String)
    → ((has_key (text_fields payments) key ≡ false) × (state_of payments key ≡ none))
      ⊎ ((s : String) × (get (text_fields payments) key ≡ str s) × (state_of payments key ≡ some s))
unfolding get has_key
text_of [] key = inl (refl, refl)
text_of ((k, s) ∷ rest) key = elim (Bool-cases (str_eq k key)) [
  | inl e ↦ inr (s, rw e refl, rw e refl)
  | inr e ↦ rw e (text_of rest key)
]

module _ (codec : Codec) where
  open codec use {dumps, loads, b64encode, b64decode, dict_of, blank}

  -- A dict has a text under each key that has one in the object, and no other keys.
  pub record SameTexts (gs : Fields) (hs : List (String × String)) : Type 0 where
    pub texts : (key s : String) → get gs key ≡ str s → state_of hs key ≡ some s
    pub only : (key : String) → has_key gs key ≡ false → state_of hs key ≡ none

  -- A line reads back as an object with the same texts, and with dictionaries of the same texts
  -- where there were objects, in whatever order of its keys.
  pub record Reads (fs : Fields) : Type 0 where
    pub back : Fields
    pub filled : blank (dumps fs) ≡ false
    pub loaded : loads (dumps fs) ≡ ok (obj back)
    pub texts : (key s : String) → get fs key ≡ str s → item_of back key ≡ some (str s)
    pub dicts :
        (key : String) (gs : Fields)
        → get fs key ≡ obj gs
        → (v : Value) × (hs : List (String × String)) × (item_of back key ≡ some v)
          × (dict_of v ≡ some hs)
          × SameTexts gs hs

  -- A dict that was written as an object of texts and read back has the lookups that it had.
  state_of-text_fields :
      (payments hs : List (String × String)) (key : String)
      → SameTexts (text_fields payments) hs
      → state_of hs key ≡ state_of payments key
  state_of-text_fields payments hs key same = elim (text_of payments key) [
    | inl (unheld, missing) ↦ same.only key unheld ∙ sym missing
    | inr (s, held, found) ↦ same.texts key s held ∙ sym found
  ]

  -- A row that a claim has stored, whose line and whose body read back.
  pub record Logged (d : Delivery) : Type 0 where
    pub identity : String
    pub keyed : d.delivery_id ≡ delivery_key d.provider identity
    pub line : Reads (delivery_fields codec d identity)
    pub body : b64decode (b64encode d.raw) ≡ some d.raw

  abbrev pub AllLogged : List Delivery → Type 0
  AllLogged [] = Unit {0}
  AllLogged (d ∷ ds) = Logged d × AllLogged ds

  delivery_line-eq :
      (d : Delivery) (l : Logged d)
      → delivery_line codec d ≡ ok (dumps (delivery_fields codec d l.identity))
  delivery_line-eq d l =
      ap (λ o. after_colon o >>= λ identity. ok (dumps (delivery_fields codec d identity)))
        (ap (partition b':') l.keyed ∙ partition-key d.provider l.identity)

  -- The record that the line of a row reads back as.
  entry_of-row :
      (d : Delivery) (l : Logged d)
      → (e : Entry) × (entry_of codec l.line.back ≡ some e) × (entry_key e ≡ row_key d)
  unfolding get
  entry_of-row d l =
      let (v, hs, found, dict, _) = l.line.dicts "headers" (text_fields d.headers) refl in
      (
        record { provider = d.provider; identity = l.identity; raw = d.raw; headers = hs },
        rw
            (
              l.line.texts "provider" (provider_text d.provider) refl,
              provider_of-text d.provider,
              l.line.texts "identity" l.identity refl,
              l.line.texts "raw_b64" (b64encode d.raw) refl,
              l.body,
              found,
              dict,
            )
            refl,
        ap (λ k. (d.provider, k, d.raw)) (sym l.keyed),
      )

  -- The lines of a log are written, and what has been read after them.
  pub record ReadBack (ds : List Delivery) (payments : List (String × String)) (before : List Entry)
      : Type 0 where
    pub lines : List String
    pub read : Read
    pub more : List Entry
    pub stated : List (String × String)
    pub written : log_lines codec ds payments ≡ ok lines
    pub reads : (r : Read) → r.entries ≡ before → read_lines codec lines r ≡ done read
    pub entries : read.entries ≡ before ++ more
    pub same : map entry_key more ≡ map row_key ds
    pub expects : read.expected ≡ some stated
    pub states : (key : String) → state_of stated key ≡ state_of payments key

  read_back :
      (ds : List Delivery) (payments : List (String × String)) (before : List Entry)
      → AllLogged ds
      → Reads (terminal_fields payments)
      → ReadBack ds payments before
  unfolding get
  read_back [] payments before _ t =
      let (v, hs, found, dict, same) = t.dicts "payments" (text_fields payments) refl in
      record {
        lines = terminal_line codec payments ∷ [];
        read = record { entries = before; expected = some hs };
        more = [];
        stated = hs;
        written = refl;
        reads = λ r e. rw (t.filled, t.loaded, t.texts "kind" "terminal" refl, found, dict, e) refl;
        entries = sym (append-nil before);
        same = refl;
        expects = refl;
        states = λ key. state_of-text_fields payments hs key same;
      }
  read_back (d ∷ ds) payments before (l, ls) t =
      let (e, made, same_key) = entry_of-row d l in
      let rest = read_back ds payments (before ++ e ∷ []) ls t in
      record {
        lines = dumps (delivery_fields codec d l.identity) ∷ rest.lines;
        read = rest.read;
        more = e ∷ rest.more;
        stated = rest.stated;
        written = rw (delivery_line-eq d l, rest.written) refl;
        reads = λ r same.
            rw (l.line.filled, l.line.loaded, l.line.texts "kind" "delivery" refl, made)
              (rest.reads (record r { entries = r.entries ++ e ∷ [] })
                (ap (λ es. es ++ e ∷ []) same));
        entries = rest.entries ∙ append_assoc before (e ∷ []) rest.more;
        same = cc (same_key, rest.same);
        expects = rest.expects;
        states = rest.states;
      }

  -- A log of at least one delivery is not refused for being empty.
  kept :
      (r : Read) (more : List Entry) (d : Delivery) (ds : List Delivery)
      → r.entries ≡ more
      → map entry_key more ≡ map row_key (d ∷ ds)
      → with_deliveries (done r) ≡ done r
  kept r [] d ds e same = absurd (omega (arith, ap length same))
  kept r (x ∷ more) d ds e same = ap (λ es. if_any es r) e

  -- A log that is written from stored deliveries, with at least one of them the first in the order
  -- of receipt, whose lines and bodies read back, is written without an error and read without one:
  -- what is read are the deliveries of the inbox in the order of receipt, each with its provider,
  -- its key and its exact bytes, and the terminal states that a replay is compared with. Those have
  -- for every payment the status that the ledger has for it, and none where the ledger has none.
  pub write_log-read_log :
      (db : Db) (first : Delivery) (later : List Delivery)
      → sort_by earlier db.deliveries ≡ first ∷ later
      → AllLogged (sort_by earlier db.deliveries)
      → Reads (terminal_fields (map (λ p. (p.0, status_text p.1)) (terminal db)))
      → (lines : List String) × (r : Read) × (stated : List (String × String)) × (write_log codec db
          ≡ ok lines)
        × (read_log codec lines ≡ done r)
        × (map entry_key r.entries ≡ map row_key (sort_by earlier db.deliveries))
        × (r.expected ≡ some stated)
        × ((payment_id : String)
            → state_of stated payment_id
              ≡ state_of (map (λ p. (p.0, status_text p.1)) (terminal db)) payment_id)
  unfolding write_log read_log
  write_log-read_log db first later order logged t =
      let b =
        read_back (sort_by earlier db.deliveries) (map (λ p. (p.0, status_text p.1)) (terminal db))
          [] logged t in
      (
        b.lines,
        b.read,
        b.stated,
        b.written,
        ap with_deliveries (b.reads nothing_read refl)
            ∙ kept b.read b.more first later b.entries (b.same ∙ ap (map row_key) order),
        ap (map entry_key) b.entries ∙ b.same,
        b.expects,
        b.states,
      )
