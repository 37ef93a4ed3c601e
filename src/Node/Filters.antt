-- ===== src/Node/Filters.antt =====
-- app/engine/sparkplug.c: what new settings do to the subscriptions of the node.
use event_engine_acap.Prelude.{
  ℕ, ◌+◌, ◌≤◌, ◌≡◌, refl, ap, inl, inr, Bool, true, false, ◌&&◌, not, if◌then◌else◌, Option, List,
  [], ◌∷◌, ◌++◌, map, Str, str_eq, eq_of_str_eq, length, arith, Bool-cases,
}
use event_engine_acap.Sparkplug.Metric.{Numbers}
use event_engine_acap.Node.State.{MsgType, Node, is_set}
use event_engine_acap.Node.Publishing.{Call, publish_birth}
use event_engine_acap.Node.Settings.{Settings, Setup, settle, settings_hash, identity_changed}
use event_engine_acap.Node.Configure.{
  Request, subscribe, unsubscribe, resubscribe_events, force_reconnect, call, change_filter,
  change_filters, wanted_filters, with_settings, after_settings, is_hash, apply_settings,
  sparkplug_configure,
}

abbrev pub one_if : Bool → ℕ
one_if true = 1
one_if false = 0

-- How often the node holds a subscription of a topic, and how often it asks for one or gives one up.
abbrev pub held : Str → List Str → ℕ
held t [] = 0
held t (c ∷ cs) = one_if (is_set c && str_eq c t) + held t cs

module _ {D : Type 0} where
  abbrev pub joins : Str → List (Request D) → ℕ
  joins t [] = 0
  joins t (subscribe s ∷ rs) = one_if (str_eq s t) + joins t rs
  joins t (unsubscribe s ∷ rs) = joins t rs
  joins t (resubscribe_events ∷ rs) = joins t rs
  joins t (force_reconnect ∷ rs) = joins t rs
  joins t (call c ∷ rs) = joins t rs

  abbrev pub leaves : Str → List (Request D) → ℕ
  leaves t [] = 0
  leaves t (subscribe s ∷ rs) = leaves t rs
  leaves t (unsubscribe s ∷ rs) = one_if (str_eq s t) + leaves t rs
  leaves t (resubscribe_events ∷ rs) = leaves t rs
  leaves t (force_reconnect ∷ rs) = leaves t rs
  leaves t (call c ∷ rs) = leaves t rs

  joins-append :
      (t : Str) (rs rs' : List (Request D)) → joins t (rs ++ rs') ≡ joins t rs + joins t rs'
  joins-append t [] rs' = omega arith
  joins-append t (subscribe s ∷ rs) rs' = omega (arith, joins-append t rs rs')
  joins-append t (unsubscribe s ∷ rs) rs' = joins-append t rs rs'
  joins-append t (resubscribe_events ∷ rs) rs' = joins-append t rs rs'
  joins-append t (force_reconnect ∷ rs) rs' = joins-append t rs rs'
  joins-append t (call c ∷ rs) rs' = joins-append t rs rs'

  leaves-append :
      (t : Str) (rs rs' : List (Request D)) → leaves t (rs ++ rs') ≡ leaves t rs + leaves t rs'
  leaves-append t [] rs' = omega arith
  leaves-append t (subscribe s ∷ rs) rs' = leaves-append t rs rs'
  leaves-append t (unsubscribe s ∷ rs) rs' = omega (arith, leaves-append t rs rs')
  leaves-append t (resubscribe_events ∷ rs) rs' = leaves-append t rs rs'
  leaves-append t (force_reconnect ∷ rs) rs' = leaves-append t rs rs'
  leaves-append t (call c ∷ rs) rs' = leaves-append t rs rs'

  -- The requests give up no more than is held, and lead from one list of filters to the other.
  abbrev pub Balanced : Str → List Str → List Str → List (Request D) → Type 0
  Balanced t cur next rs =
      (leaves t rs ≤ held t cur) × (held t cur + joins t rs ≡ held t next + leaves t rs)

  -- Requests without a subscription.
  abbrev pub IsQuiet : Str → List (Request D) → Type 0
  IsQuiet t rs = (joins t rs ≡ 0) × (leaves t rs ≡ 0)

  calls-IsQuiet : (t : Str) (cs : List (Call D)) → IsQuiet t (map call cs)
  calls-IsQuiet t [] = (refl, refl)
  calls-IsQuiet t (c ∷ cs) = calls-IsQuiet t cs

  if-IsQuiet :
      (t : Str) (b : Bool) (r r' : Node × List (Request D))
      → IsQuiet t r.1
      → IsQuiet t r'.1
      → IsQuiet t (if b then r else r').1
  if-IsQuiet t true r r' q q' = q
  if-IsQuiet t false r r' q q' = q'

module _ (D : Type 0) where
  change_filter-Balanced :
      (t cur next : Str) → Balanced t (cur ∷ []) (next ∷ []) (change_filter {D = D} cur next)
  unfolding change_filter
  change_filter-Balanced t cur next = elim (Bool-cases (str_eq cur next)) [
    | inl e ↦ rw e (omega arith, ap (λ x. held t (x ∷ []) + 0) (eq_of_str_eq cur next e))
    | inr e ↦ elim (Bool-cases (is_set cur)) [
      | inl c ↦ elim (Bool-cases (is_set next)) [
        | inl n ↦ rw (e, c, n) (omega arith, omega arith)
        | inr n ↦ rw (e, c, n) (omega arith, omega arith)
      ]
      | inr c ↦ elim (Bool-cases (is_set next)) [
        | inl n ↦ rw (e, c, n) (omega arith, omega arith)
        | inr n ↦ rw (e, c, n) (omega arith, omega arith)
      ]
    ]
  ]

  change_filters-Balanced :
      (t : Str) (cur next : List Str)
      → length cur ≡ length next
      → Balanced t cur next (change_filters {D = D} cur next)
  unfolding change_filters
  change_filters-Balanced t [] [] h = (omega arith, refl)
  change_filters-Balanced t [] (n ∷ next) h = absurd (omega arith)
  change_filters-Balanced t (c ∷ cur) [] h = absurd (omega arith)
  change_filters-Balanced t (c ∷ cur) (n ∷ next) h =
      let one = change_filter-Balanced t c n in
      let more = change_filters-Balanced t cur next (omega arith) in
      let j = joins-append t (change_filter {D = D} c n) (change_filters cur next) in
      let l = leaves-append t (change_filter {D = D} c n) (change_filters cur next) in
      (omega (arith, one, more, l), omega (arith, one, more, j, l))

module _ {D : Type 0} (d : Numbers D) (zero_dbl : D) (connected : Bool) (works : MsgType → Bool)
    (now : ℕ) where
  after_settings-IsQuiet :
      (t : Str) (changed : Bool) (n : Node)
      → IsQuiet t (after_settings d zero_dbl connected works now changed n).1
  unfolding after_settings
  after_settings-IsQuiet t changed n =
      let birth = publish_birth d zero_dbl works now n in
      if-IsQuiet t (not n.enabled) _ _ (refl, refl)
        (if-IsQuiet t (changed && connected) _ _ (refl, refl)
          (if-IsQuiet t connected (birth.0, map call birth.1) _ (calls-IsQuiet t birth.1)
            (refl, refl)))

  apply_settings-Balanced :
      (t : Str) (s : Settings) (u : Setup)
      → length u.filters ≡ 3
      → let r = apply_settings d zero_dbl connected works now s u in
        Balanced t u.filters r.0.filters r.1
  unfolding apply_settings wanted_filters
  apply_settings-Balanced t s u h =
      let n = with_settings now s u.node in
      let next = wanted_filters s.is_2_2 n in
      let after = (after_settings d zero_dbl connected works now (identity_changed s u) n).1 in
      let changes = change_filters {D = D} u.filters next in
      let changed : Balanced t u.filters next changes =
        change_filters-Balanced D t u.filters next h in
      let quiet : IsQuiet t after = after_settings-IsQuiet t (identity_changed s u) n in
      let j = joins-append t changes (resubscribe_events ∷ after) in
      let l = leaves-append t changes (resubscribe_events ∷ after) in
      (omega (arith, changed, quiet, l), omega (arith, changed, quiet, j, l))

  -- New settings keep the subscriptions of the node in step with its filters: of every topic it gives
  -- up no more than it holds, and what it holds with what it asks for is what it holds then with what
  -- it gave up. The filters are the three that it was started with or configured to.
  pub sparkplug_configure-Balanced :
      (t : Str) (serial : Option Str) (cfg : Settings) (u : Setup)
      → length u.filters ≡ 3
      → let r = sparkplug_configure d zero_dbl connected works now serial cfg u in
        (length r.0.filters ≡ 3) × Balanced t u.filters r.0.filters r.1
  unfolding sparkplug_configure
  sparkplug_configure-Balanced t serial cfg u h =
      let s = settle serial cfg in
      elim (Bool-cases (is_hash d zero_dbl u.config_hash (settings_hash s))) [
        | inl e ↦ rw e (h, (omega arith, refl))
        | inr e ↦
            rw e (unfold apply_settings wanted_filters in refl, apply_settings-Balanced t s u h)
      ]
