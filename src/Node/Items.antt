-- ===== src/Node/Items.antt =====
-- app/engine/sparkplug.c: values that a rule publishes or the device reports change nothing the host knows.
use event_engine_acap.Prelude.{
  ℕ, zero, suc, refl, inl, inr, Bool, not, Option, none, some, List, [], ◌∷◌, Str, Bool-cases, ltb,
  get_elem?, snprintf,
}
use event_engine_acap.Sparkplug.Metric.{Numbers, Metric}
use event_engine_acap.Node.State.{spb_value_len, spb_history_max, MetricDef, Node, find_def}
use event_engine_acap.Node.Buffer.{buffer_sample, can_send}
use event_engine_acap.Node.Sessions.{
  named, value_item, look_up_item, go_on, Item, take_items, take_item, valued, with_value,
}
use event_engine_acap.Prelude.{◌+◌}
use event_engine_acap.Node.Inbound.{field_for, news, reported, observed, observe_from}
use event_engine_acap.Node.Host.{Host}
use event_engine_acap.Node.Agreement.{Agrees, Agrees-same}

buffer_sample-Agrees :
    (i : ℕ) (text : Str) (ts : ℕ) (n : Node) (h : Host)
    → Agrees n h
    → Agrees (buffer_sample i text ts n) h
unfolding buffer_sample
buffer_sample-Agrees i text ts n h a = elim (Bool-cases (ltb n.hist_count spb_history_max)) [
  | inl e ↦ rw e (Agrees-same _ a refl refl refl refl)
  | inr e ↦ rw e (Agrees-same _ a refl refl refl refl)
]

valued-Agrees :
    (conn : Bool) (i : ℕ) (text : Str) (ts : ℕ) (def : MetricDef) (n : Node) (h : Host)
    → Agrees n h
    → Agrees (valued conn i text ts def n) h
valued-Agrees conn i text ts def n h a =
    let a' : Agrees (with_value i text ts def n) h = Agrees-same _ a refl refl refl refl in
    elim (Bool-cases (not (can_send conn n))) [
      | inl e ↦ rw e (buffer_sample-Agrees i text ts _ h a')
      | inr e ↦ rw e a'
    ]

module _ {D : Type 0} (d : Numbers D) (zero_dbl : D) where
  after_item : Option (Node × Metric D) → Node → Node
  after_item none n = n
  after_item (some (n', m)) n = n'

  value_item-Agrees :
      (conn : Bool) (ts : ℕ) (text : Str) (n : Node) (h : Host) (i : ℕ) (def : Option MetricDef)
      → Agrees n h
      → Agrees (after_item (value_item d zero_dbl conn ts text n i def) n) h
  unfolding after_item
  value_item-Agrees conn ts text n h i none a = a
  value_item-Agrees conn ts text n h i (some def) a = valued-Agrees conn i text ts def n h a

  look_up_item-Agrees :
      (conn : Bool) (ts : ℕ) (text : Str) (n : Node) (h : Host) (i : Option ℕ)
      → Agrees n h
      → Agrees (after_item (look_up_item d zero_dbl conn ts text n i) n) h
  unfolding after_item
  look_up_item-Agrees conn ts text n h none a = a
  look_up_item-Agrees conn ts text n h (some i) a =
      value_item-Agrees conn ts text n h i (get_elem? n.defs i) a

  go_on-Agrees :
      (o : Option (Node × Metric D)) (skipped : Node × List (Metric D))
      (next : Node → Node × List (Metric D)) (n : Node) (h : Host)
      → Agrees (after_item o n) h
      → Agrees skipped.0 h
      → ((n' : Node) → Agrees n' h → Agrees (next n').0 h)
      → Agrees (go_on d zero_dbl o skipped next).0 h
  unfolding after_item
  go_on-Agrees none skipped next n h a s f = s
  go_on-Agrees (some (n', m)) skipped next n h a s f = f n' a

  pub take_items-Agrees :
      (conn : Bool) (ts room : ℕ) (items : List Item) (n : Node) (h : Host)
      → Agrees n h
      → Agrees (take_items d zero_dbl conn ts room items n).0 h
  unfolding take_items take_item
  take_items-Agrees conn ts room [] n h a = a
  take_items-Agrees conn ts zero (item ∷ items) n h a = a
  take_items-Agrees conn ts (suc room) (item ∷ items) n h a =
      go_on-Agrees _ _ (take_items d zero_dbl conn ts room items) n h
        (look_up_item-Agrees conn ts (snprintf spb_value_len item.text) n h
          (find_def (named item.name) n.defs) a)
        (take_items-Agrees conn ts (suc room) items n h a)
        (λ n' a'. take_items-Agrees conn ts room items n' h a')

  reported-Agrees :
      (conn : Bool) (ts : ℕ) (n : Node) (h : Host) (i : ℕ) (def : MetricDef) (text : Option Str)
      → Agrees n h
      → Agrees (after_item (reported d zero_dbl conn ts n i def text) n) h
  unfolding after_item
  reported-Agrees conn ts n h i def none a = a
  reported-Agrees conn ts n h i def (some text) a = valued-Agrees conn i text ts def n h a

  observed-Agrees :
      (conn : Bool) (ts : ℕ) (path : Str) (field : Str → Option Str) (n : Node) (h : Host) (i : ℕ)
      (def : Option MetricDef)
      → Agrees n h
      → Agrees (after_item (observed d zero_dbl conn ts path field n i def) n) h
  unfolding after_item
  observed-Agrees conn ts path field n h i none a = a
  observed-Agrees conn ts path field n h i (some def) a =
      reported-Agrees conn ts n h i def (news def (field_for path field def.source)) a

  pub observe_from-Agrees :
      (conn : Bool) (ts : ℕ) (path : Str) (field : Str → Option Str) (i more : ℕ) (n : Node)
      (h : Host)
      → Agrees n h
      → Agrees (observe_from d zero_dbl conn ts path field i more n).0 h
  unfolding observe_from
  observe_from-Agrees conn ts path field i zero n h a = a
  observe_from-Agrees conn ts path field i (suc more) n h a =
      go_on-Agrees (observed d zero_dbl conn ts path field n i (get_elem? n.defs i)) _
        (observe_from d zero_dbl conn ts path field (i + 1) more) n h
        (observed-Agrees conn ts path field n h i (get_elem? n.defs i) a)
        (observe_from-Agrees conn ts path field (i + 1) more n h a)
        (λ n' a'. observe_from-Agrees conn ts path field (i + 1) more n' h a')
