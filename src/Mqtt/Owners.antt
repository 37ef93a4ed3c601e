-- ===== src/Mqtt/Owners.antt =====
-- app/engine/mqtt_client.c: a filter stays subscribed until the last of its owners releases it.
use event_engine_acap.Prelude.{
  ℕ, ◌+◌, ◌-◌, ◌≤◌, ◌<◌, ◌≡◌, refl, ap, ◌⊎◌, ◌↔◌, inl, inr, Bool, true, false, ltb, leb, ◌==◌,
  if◌then◌else◌, Bool-cases, Option-cases, Option, none, some, List, [], ◌∷◌, ◌++◌, Str, str_eq,
  str_eq_iff, snprintf, snprintf_fits, length, length-append, update_first, arith,
}
use event_engine_acap.Table.{
  find_key, index_of, swap_remove, occurs, Distinct, find-append, find-update_first,
  occurs-update_first, length-update_first, occurs_of_find_none, find_none_of_occurs, occurs-append,
  find-swap_remove, occurs-swap_remove, length-swap_remove, find_of_index_none,
}
use event_engine_acap.Mqtt.Subscriptions.{
  max_subscriptions, filter_size, Subscription, filter_of, is_for, Subscribed, when_open,
  mqtt_subscribe, mqtt_unsubscribe, do_subscribe_all,
}

abbrev pub refs_in : Option Subscription → ℕ
refs_in none = 0
refs_in (some s) = s.refs

-- How many owners a filter has.
abbrev pub owners : List Subscription → Str → ℕ
owners subs f = refs_in (find_key filter_of f subs)

-- No filter stands twice, each has an owner, and there are as many as the table holds at most.
pub record IsValid (subs : List Subscription) : Type 0 where
  pub distinct : Distinct filter_of subs
  pub owned : (f : Str) (s : Subscription) → find_key filter_of f subs ≡ some s → 1 ≤ s.refs
  pub bounded : length subs ≤ max_subscriptions

abbrev bump : Subscription → Subscription
bump t = record t { refs = t.refs + 1 }

abbrev drop_one : Subscription → Subscription
drop_one t = record t { refs = t.refs - 1 }

abbrev added : Str → Subscription
added f = record { topic_filter = snprintf filter_size f; refs = 1 }

module _ (subs : List Subscription) (f : Str) where
  -- The three ways that `MQTT_Subscribe` goes.
  subscribe_known :
      (opened : Bool) (s : Subscription)
      → find_key filter_of f subs ≡ some s
      → mqtt_subscribe opened (some f) subs
        ≡ record { table = update_first (is_for f) bump subs; result = true; sent = [] }
  unfolding mqtt_subscribe
  subscribe_known opened s e = rw (e, mqtt_subscribe) refl

  subscribe_full :
      (opened : Bool)
      → find_key filter_of f subs ≡ none
      → max_subscriptions ≤ length subs
      → mqtt_subscribe opened (some f) subs ≡ record { table = subs; result = false; sent = [] }
  unfolding mqtt_subscribe
  subscribe_full opened e full =
      let test : leb max_subscriptions (length subs) ≡ true = ground arith in
      rw (e, mqtt_subscribe, test) refl

  subscribe_new :
      (opened : Bool)
      → find_key filter_of f subs ≡ none
      → length subs < max_subscriptions
      → mqtt_subscribe opened (some f) subs
        ≡ record { table = subs ++ (added f ∷ []); result = true; sent = when_open opened f }
  unfolding mqtt_subscribe
  subscribe_new opened e room =
      let test : leb max_subscriptions (length subs) ≡ false = ground arith in
      rw (e, mqtt_subscribe, test) refl

  find-bump :
      (g : Str)
      → find_key filter_of g (update_first (is_for f) bump subs) ≡ (
          if str_eq f g
          then elim (find_key filter_of g subs) [ none ↦ none | some s ↦ some (bump s) ]
          else find_key filter_of g subs)
  find-bump g = find-update_first filter_of f bump (λ s e. e) g subs

  find-drop_one :
      (g : Str)
      → find_key filter_of g (update_first (is_for f) drop_one subs) ≡ (
          if str_eq f g
          then elim (find_key filter_of g subs) [ none ↦ none | some s ↦ some (drop_one s) ]
          else find_key filter_of g subs)
  find-drop_one g = find-update_first filter_of f drop_one (λ s e. e) g subs

  find-added :
      (g : Str)
      → length f < filter_size
      → find_key filter_of f subs ≡ none
      → find_key filter_of g (subs ++ (added f ∷ []))
        ≡ (if str_eq f g then some (added f) else find_key filter_of g subs)
  unfolding find_key
  find-added g short e = ground (
    arith,
    find-append filter_of g subs (added f ∷ []),
    ap (λ s. str_eq s g) (snprintf_fits filter_size f short),
    str_eq_iff f g,
  )

  bump-IsValid : IsValid subs → IsValid (update_first (is_for f) bump subs)
  bump-IsValid v = record {
    distinct =
        λ k. omega (arith, occurs-update_first filter_of f bump (λ s e. e) k subs, v.distinct k);
    owned = λ g t e. elim (Option-cases (find_key filter_of g subs)) [
      | inl gone ↦ absurd (ground (arith, find-bump g))
      | inr (s, at) ↦ ground (arith, find-bump g, v.owned g s at)
    ];
    bounded = omega (arith, length-update_first filter_of f bump (λ s e. e) subs, v.bounded);
  }

  added-IsValid :
      IsValid subs
      → length f < filter_size
      → find_key filter_of f subs ≡ none
      → length subs < max_subscriptions
      → IsValid (subs ++ (added f ∷ []))
  unfolding occurs
  added-IsValid v short e room = record {
    distinct = λ k. ground (
      arith,
      v.distinct k,
      occurs-append filter_of k subs (added f ∷ []),
      occurs_of_find_none filter_of f subs e,
      ap (λ s. str_eq s k) (snprintf_fits filter_size f short),
      str_eq_iff f k,
      λ (same : f ≡ k). ap (λ j. occurs filter_of j subs) same,
    );
    owned = λ g t e'. elim (Bool-cases (str_eq f g)) [
      | inl same ↦ ground (arith, find-added g short e)
      | inr other ↦ ground (arith, find-added g short e, v.owned g t)
    ];
    bounded = omega (arith, length-append subs (added f ∷ []));
  }

  -- The outcome of `MQTT_Subscribe`.
  pub record Joined (opened : Bool) (r : Subscribed) : Type 0 where
    pub valid : IsValid r.table
    pub result_iff : (r.result ≡ true) ↔ ((1 ≤ owners subs f) ⊎ (length subs < max_subscriptions))
    pub counted :
        (g : Str)
        → owners r.table g ≡ owners subs g + (if str_eq f g then (if r.result then 1 else 0) else 0)
    pub announced :
        r.sent ≡ (if r.result then (if owners subs f == 0 then when_open opened f else []) else [])

  -- `MQTT_Subscribe` of a short filter on a valid table: it fails exactly on a new filter when the
  -- table is full, and then changes nothing; else the filter has one owner more and no other filter is
  -- affected. SUBSCRIBE is sent for the first owner alone, if there is a connection, and the table
  -- stays valid.
  pub mqtt_subscribe-Joined :
      (opened : Bool)
      → IsValid subs
      → length f < filter_size
      → Joined opened (mqtt_subscribe opened (some f) subs)
  mqtt_subscribe-Joined opened v short = elim (Option-cases (find_key filter_of f subs)) [
    | inr (s, e) ↦
        let one = v.owned f s e in
        let owned : 1 ≤ owners subs f = rw e one in
        rw (subscribe_known opened s e) (record {
          valid = bump-IsValid v;
          result_iff = (λ h. inl owned, λ h. refl);
          counted = λ g. ground (arith, find-bump g, str_eq_iff f g);
          announced = ground (arith, owned);
        })
    | inl e ↦
        let unowned : owners subs f ≡ 0 = rw e refl in
        elim (Bool-cases (ltb (length subs) max_subscriptions)) [
          | inl below ↦
              let room : length subs < max_subscriptions = ground arith in
              rw (subscribe_new opened e room) (record {
                valid = added-IsValid v short e room;
                result_iff = (λ h. inr room, λ h. refl);
                counted = λ g. ground (arith, find-added g short e, str_eq_iff f g, unowned);
                announced = ground (arith, unowned);
              })
          | inr full' ↦
              let full : max_subscriptions ≤ length subs = ground arith in
              rw (subscribe_full opened e full) (record {
                valid = v;
                result_iff = (λ h. absurd (cc), λ h. absurd (ground arith));
                counted = λ g. ground arith;
                announced = refl;
              })
        ]
  ]

  unsubscribe_gone :
      (opened : Bool)
      → index_of (is_for f) subs ≡ none
      → mqtt_unsubscribe opened (some f) subs ≡ (subs, [])
  unfolding mqtt_unsubscribe
  unsubscribe_gone opened e = rw (e, mqtt_unsubscribe) refl

  unsubscribe_found :
      (opened : Bool) (i : ℕ) (s : Subscription)
      → index_of (is_for f) subs ≡ some i
      → find_key filter_of f subs ≡ some s
      → mqtt_unsubscribe opened (some f) subs ≡ (
          if ltb 0 (s.refs - 1)
          then (update_first (is_for f) drop_one subs, [])
          else (swap_remove subs i, when_open opened f))
  unfolding mqtt_unsubscribe
  unsubscribe_found opened i s at e = rw (at, mqtt_unsubscribe, e) refl

  found_at :
      (i : ℕ)
      → index_of (is_for f) subs ≡ some i
      → (s : Subscription) × (find_key filter_of f subs ≡ some s)
  found_at i at = elim (Option-cases (find_key filter_of f subs)) [
    | inr found ↦ found
    | inl gone ↦ absurd (
        ground (
          arith,
          occurs_of_find_none filter_of f subs gone,
          occurs-swap_remove filter_of f subs i at f,
          str_eq_iff f f,
        ))
  ]

  drop_one-IsValid :
      IsValid subs
      → (s : Subscription) → find_key filter_of f subs ≡ some s
      → 1 < s.refs
      → IsValid (update_first (is_for f) drop_one subs)
  drop_one-IsValid v s found more = record {
    distinct = λ k.
        omega (arith, occurs-update_first filter_of f drop_one (λ s e. e) k subs, v.distinct k);
    owned = λ g t e. elim (Option-cases (find_key filter_of g subs)) [
      | inl gone ↦ absurd (ground (arith, find-drop_one g))
      | inr (s', at) ↦ elim (Bool-cases (str_eq f g)) [
        | inl same ↦ ground (
          arith,
          find-drop_one g,
          found,
          str_eq_iff f g,
          λ (e : f ≡ g). ap (λ j. find_key filter_of j subs) e,
        )
        | inr other ↦ ground (arith, find-drop_one g, v.owned g s' at)
      ]
    ];
    bounded = omega (arith, length-update_first filter_of f drop_one (λ s e. e) subs, v.bounded);
  }

  removed-IsValid :
      IsValid subs → (i : ℕ) → index_of (is_for f) subs ≡ some i → IsValid (swap_remove subs i)
  removed-IsValid v i at = record {
    distinct = λ k. omega (arith, occurs-swap_remove filter_of f subs i at k, v.distinct k);
    owned = λ g t e. elim (Bool-cases (str_eq f g)) [
      | inl same ↦ absurd (ground (arith, find-swap_remove filter_of f subs i at v.distinct g))
      | inr other ↦
          v.owned g t (ground (arith, find-swap_remove filter_of f subs i at v.distinct g))
    ];
    bounded = omega (arith, length-swap_remove filter_of f subs i at, v.bounded);
  }

  -- The outcome of `MQTT_Unsubscribe`.
  pub record Released (opened : Bool) (r : List Subscription × List Str) : Type 0 where
    pub valid : IsValid r.0
    pub counted : (g : Str) → owners r.0 g ≡ owners subs g - (if str_eq f g then 1 else 0)
    pub announced : r.1 ≡ (if owners subs f == 1 then when_open opened f else [])

  -- `MQTT_Unsubscribe` on a valid table takes one owner from the filter, if it has any, and none from
  -- another filter. UNSUBSCRIBE is sent for the last owner alone, if there is a connection, and the
  -- table stays valid.
  pub mqtt_unsubscribe-Released :
      (opened : Bool) → IsValid subs → Released opened (mqtt_unsubscribe opened (some f) subs)
  mqtt_unsubscribe-Released opened v = elim (Option-cases (index_of (is_for f) subs)) [
    | inl gone ↦
        let none' = find_of_index_none filter_of f subs gone in
        let unowned : owners subs f ≡ 0 = rw none' refl in
        rw (unsubscribe_gone opened gone) (record {
          valid = v;
          counted = λ g. ground (arith, str_eq_iff f g, unowned, λ (e : f ≡ g). ap (owners subs) e);
          announced = ground (arith, unowned);
        })
    | inr (i, at) ↦
        let (s, found) = found_at i at in
        let one = v.owned f s found in
        let all : owners subs f ≡ s.refs = rw found refl in
        rw (unsubscribe_found opened i s at found) (elim (Bool-cases (ltb 0 (s.refs - 1))) [
          | inl more ↦ rw more (record {
            valid = drop_one-IsValid v s found (ground arith);
            counted = λ g. ground (arith, find-drop_one g, str_eq_iff f g);
            announced = ground (arith, all);
          })
          | inr last ↦ rw last (record {
            valid = removed-IsValid v i at;
            counted = λ g. ground (
              arith,
              find-swap_remove filter_of f subs i at v.distinct g,
              str_eq_iff f g,
              all,
              λ (e : f ≡ g). ap (owners subs) e,
            );
            announced = ground (arith, all);
          })
        ])
  ]

-- How often a filter stands in a list.
unfoldable pub mentions : Str → List Str → ℕ
mentions f [] = 0
mentions f (g ∷ gs) = if str_eq g f then mentions f gs + 1 else mentions f gs

mentions-do_subscribe_all :
    (f : Str) (subs : List Subscription)
    → mentions f (do_subscribe_all subs) ≡ occurs filter_of f subs
unfolding mentions do_subscribe_all occurs
mentions-do_subscribe_all f [] = refl
mentions-do_subscribe_all f (s ∷ subs) = ground (arith, mentions-do_subscribe_all f subs)

-- After a connection SUBSCRIBE is sent exactly once for each filter with an owner, and for no other.
pub do_subscribe_all-mentions :
    (subs : List Subscription) (f : Str)
    → IsValid subs
    → mentions f (do_subscribe_all subs) ≡ (if owners subs f == 0 then 0 else 1)
do_subscribe_all-mentions subs f v = elim (Option-cases (find_key filter_of f subs)) [
  | inl gone ↦
      rw (mentions-do_subscribe_all f subs, gone) (occurs_of_find_none filter_of f subs gone)
  | inr (s, found) ↦ ground (
    arith,
    found,
    mentions-do_subscribe_all f subs,
    v.owned f s found,
    v.distinct f,
    find_none_of_occurs filter_of f subs,
  )
]
