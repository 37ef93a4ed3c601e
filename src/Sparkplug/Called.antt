-- ===== src/Sparkplug/Called.antt =====
-- app/engine/sparkplug_pb.c: the call of the handler for a metric that was written.
use event_engine_acap.Prelude.{
  ℕ, ◌%◌, ◌^◌, ◌<◌, ◌≡◌, refl, ap₂, sym, ◌∙◌, Bool, true, false, if◌then◌else◌, Bool-cases, inl,
  inr, [], ◌∷◌, Str, arith,
}
use event_engine_acap.Cjson.{is_set}
use event_engine_acap.Sparkplug.Buffer.{bytes_of}
use event_engine_acap.Sparkplug.Metric.{
  Numbers, Metric, ValueKind, int_value, long_value, float_value, double_value, bool_value,
  string_value, no_value, value_kind,
}
use event_engine_acap.Sparkplug.Decode.{
  Decoded, Call, Pending, int_pending, long_pending, rendered, call_of, finish_metric, put_varint,
  nothing_pending, blank_metric,
}
use event_engine_acap.Sparkplug.Shown.{
  Sendable, value_text, shown, named, aliased, valued, ended, gathered, value_shown, copy_text_lem,
}

module _ {D : Type 0} (d : Numbers D) where
  -- All that a call shows of a metric but the value.
  abbrev labelled : Decoded → Call
  labelled dm = call_of (record dm { value = [] })

  labelled-rendered : (p : Pending) (dm : Decoded) → labelled (rendered d p dm) ≡ labelled dm
  labelled-rendered nothing_pending dm = refl
  labelled-rendered int_pending dm = elim (Bool-cases dm.has_value) [
    | inl h ↦ rw h refl
    | inr h ↦ rw h refl
  ]
  labelled-rendered long_pending dm = elim (Bool-cases dm.has_value) [
    | inl h ↦ rw h refl
    | inr h ↦ rw h refl
  ]

  labelled-if :
      (t : Bool) (dm dm' : Decoded) (call : Call)
      → labelled dm ≡ call
      → labelled dm' ≡ call
      → labelled (if t then dm else dm') ≡ call
  labelled-if true dm dm' call h h' = h
  labelled-if false dm dm' call h h' = h'

  labelled-finish_metric : (dm : Decoded) → labelled (finish_metric d dm) ≡ labelled dm
  labelled-finish_metric dm =
      let same = labelled-rendered dm.pending_kind dm in
      labelled-if dm.is_null _ (rendered d dm.pending_kind dm) _ same same

  labelled-valued :
      (k : ValueKind) (m : Metric D) (dm : Decoded) → labelled (valued d k m dm) ≡ labelled dm
  labelled-valued (int_value bits) m dm = refl
  labelled-valued long_value m dm = refl
  labelled-valued float_value m dm = refl
  labelled-valued double_value m dm = refl
  labelled-valued bool_value m dm = refl
  labelled-valued string_value m dm = refl
  labelled-valued no_value m dm = refl

  -- The metric before its value is read.
  abbrev headed : Metric D → Decoded
  headed m =
      put_varint 4 m.datatype
        (aliased d m.has_alias m (named d (is_set (bytes_of m.name)) m blank_metric))

  unset_empty : (s : Str) → is_set s ≡ false → s ≡ []
  unset_empty [] h = refl
  unset_empty (b ∷ bs) h = cc

  headed_name :
      (m : Metric D)
      → Sendable d m
      → (if (headed m).has_name then (headed m).name else []) ≡ bytes_of m.name
  headed_name m s = elim (Bool-cases (is_set (bytes_of m.name))) [
    | inl h ↦ rw h (copy_text_lem d 256 (bytes_of m.name) s.name_fits s.name_ends)
    | inr h ↦ rw h (sym (unset_empty (bytes_of m.name) h))
  ]

  flag_same : (t : Bool) → (if t then true else false) ≡ t
  flag_same true = refl
  flag_same false = refl

  type_kept : (v : ℕ) → v < 2 ^ 32 → v % 2 ^ 32 ≡ v
  type_kept v h = omega arith

  -- A metric that is null is shown without a value.
  null_value : (dm : Decoded) → dm.is_null ≡ true → (finish_metric d dm).value ≡ []
  null_value dm h = rw h refl

  ended_value :
      (null : Bool) (m : Metric D)
      → Sendable d m
      → (finish_metric d (ended d null m (headed m))).value
        ≡ (if null then [] else value_text d (value_kind m.datatype) m)
  ended_value true m s = null_value (ended d true m (headed m)) refl
  ended_value false m s =
      value_shown d (value_kind m.datatype) m (headed m) s refl (type_kept m.datatype s.type_fits)
        refl refl refl refl

  ended_label :
      (null : Bool) (m : Metric D) → labelled (ended d null m (headed m)) ≡ labelled (headed m)
  ended_label true m = refl
  ended_label false m = labelled-valued (value_kind m.datatype) m (headed m)

  -- The decoder's call of the handler shows what was sent.
  pub call_of-gathered :
      (m : Metric D)
      → Sendable d m
      → call_of (finish_metric d (gathered d m blank_metric)) ≡ shown d m
  unfolding shown
  call_of-gathered m s =
      let dm = gathered d m blank_metric in
      let same : labelled (finish_metric d dm) ≡ labelled (headed m) =
        labelled-finish_metric dm ∙ ended_label m.is_null m in
      ap₂ (λ (call : Call) (text : Str). record call { value_str = text }) same
        (ended_value m.is_null m s)
      ∙ rw (headed_name m s, type_kept m.datatype s.type_fits, flag_same m.has_alias) refl
