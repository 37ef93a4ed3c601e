-- ===== src/Mqtt/Subscriptions.antt =====
-- app/engine/mqtt_client.c: the topic filters, each with the number of its owners.
use event_engine_acap.Prelude.{
  ℕ, ◌+◌, ◌-◌, Bool, true, false, ltb, leb, if◌then◌else◌, Option, none, some, List, [], ◌∷◌, ◌++◌,
  Str, str_eq, snprintf, length, update_first,
}
use event_engine_acap.Table.{find_key, index_of, swap_remove}

-- `MAX_SUBSCRIPTIONS`
abbrev pub max_subscriptions : ℕ
max_subscriptions = 32

-- The size of an entry of `subscriptions`.
abbrev pub filter_size : ℕ
filter_size = 256

-- An entry of `subscriptions` with its `sub_refs`. The entries in use are a list, and its length is
-- `sub_count`.
pub record Subscription : Type 0 where
  pub topic_filter : Str
  pub refs : ℕ

abbrev pub filter_of : Subscription → Str
filter_of s = s.topic_filter

abbrev pub is_for : Str → Subscription → Bool
is_for f s = str_eq (filter_of s) f

-- The table, the result, and the filters handed to `send_subscribe`.
pub record Subscribed : Type 0 where
  pub table : List Subscription
  pub result : Bool
  pub sent : List Str

-- `opened` is `fd >= 0`: there is a connection.
abbrev pub when_open : Bool → Str → List Str
when_open opened f = if opened then f ∷ [] else []

unfoldable pub mqtt_subscribe : Bool → Option Str → List Subscription → Subscribed
mqtt_subscribe opened none subs = record { table = subs; result = false; sent = [] }
mqtt_subscribe opened (some f) subs = elim (find_key filter_of f subs) [
  | some s ↦ record {
    table = update_first (is_for f) (λ t. record t { refs = t.refs + 1 }) subs;
    result = true;
    sent = [];
  }
  | none ↦
      if leb max_subscriptions (length subs)
      then record { table = subs; result = false; sent = [] }
      else record {
        table = subs ++ (record { topic_filter = snprintf filter_size f; refs = 1 } ∷ []);
        result = true;
        sent = when_open opened f;
      }
]

-- The table, and the filters handed to `send_unsubscribe`.
unfoldable pub mqtt_unsubscribe :
    Bool → Option Str → List Subscription → List Subscription × List Str
mqtt_unsubscribe opened none subs = (subs, [])
mqtt_unsubscribe opened (some f) subs = elim (index_of (is_for f) subs) [
  | none ↦ (subs, [])
  | some i ↦ elim (find_key filter_of f subs) [
    | none ↦ (subs, [])
    | some s ↦
        if ltb 0 (s.refs - 1)
        then (update_first (is_for f) (λ t. record t { refs = t.refs - 1 }) subs, [])
        else (swap_remove subs i, when_open opened f)
  ]
]

-- The filters that `do_subscribe_all` hands to `send_subscribe`.
unfoldable pub do_subscribe_all : List Subscription → List Str
do_subscribe_all [] = []
do_subscribe_all (s ∷ subs) = filter_of s ∷ do_subscribe_all subs
