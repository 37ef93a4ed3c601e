-- ===== src/Sparkplug/Metrics.antt =====
-- app/engine/sparkplug_pb.c: `decode_metric` on the bytes of a metric.
use event_engine_acap.Prelude.{
  ℕ, ◌%◌, ◌^◌, ◌<◌, ◌≡◌, refl, sym, ◌∙◌, subst, Bool, true, false, not, ◌==◌, ◌||◌, if◌then◌else◌,
  some, List, [], ◌++◌, length, arith,
}
use mathlib.Core.List.{append-nil, append_assoc}
use native.Mathlib.Nat.{mod-le}
use event_engine_acap.Cjson.{is_set}
use event_engine_acap.Sparkplug.Buffer.{bytes_of}
use event_engine_acap.Sparkplug.Metric.{
  Numbers, Metric, ValueKind, int_value, long_value, float_value, double_value, bool_value,
  string_value, no_value, value_kind,
}
use event_engine_acap.Sparkplug.Layout.{
  varint_field, bool_field, len_field, field_if, value_as, value_layout, metric_layout,
}
use event_engine_acap.Sparkplug.Decode.{
  Decoded, decode_round, decode_loop, decode_metric, finish_metric, blank_metric,
}
use event_engine_acap.Sparkplug.Loops.{decode_loop-step}
use event_engine_acap.Sparkplug.Fields.{
  round-varint, round-text, round-float, round-double, round-other, bool_field-varint_field,
}
use event_engine_acap.Sparkplug.Shown.{Sendable, named, aliased, valued, ended, gathered}

module _ {D : Type 0} (d : Numbers D) where
  -- The loop of `decode_metric` reads the bytes and does `f` to the metric.
  abbrev Reads : List ℕ → (Decoded → Decoded) → Type 0
  Reads bs f =
      (dm : Decoded) (rest : List ℕ)
      → decode_loop d (length (bs ++ rest)) dm (bs ++ rest)
        ≡ decode_loop d (length rest) (f dm) rest

  Reads-round :
      (bs : List ℕ) (f : Decoded → Decoded)
      → ((dm : Decoded) (rest : List ℕ) → decode_round d dm (bs ++ rest) ≡ some (f dm, rest))
      → Reads bs f
  Reads-round bs f h dm rest = decode_loop-step d dm (bs ++ rest) (f dm) rest (h dm rest)

  Reads-then :
      (bs bs' : List ℕ) (f g : Decoded → Decoded)
      → Reads bs f
      → Reads bs' g
      → Reads (bs ++ bs') (λ dm. g (f dm))
  Reads-then bs bs' f g first second dm rest =
      subst (λ xs. decode_loop d (length xs) dm xs ≡ decode_loop d (length rest) (g (f dm)) rest)
        (sym (append_assoc bs bs' rest)) (first dm (bs' ++ rest) ∙ second (f dm) rest)

  Reads-nothing : Reads [] (λ dm. dm)
  Reads-nothing dm rest = refl

  Reads-named :
      (t : Bool) (m : Metric D)
      → Sendable d m
      → Reads (field_if t (len_field 1 (bytes_of m.name))) (named d t m)
  Reads-named true m s =
      Reads-round _ _
        (λ dm rest. round-text d dm 1 (bytes_of m.name) rest refl (omega (arith, s.name_fits)))
  Reads-named false m s = Reads-nothing

  Reads-aliased :
      (t : Bool) (m : Metric D)
      → Sendable d m
      → Reads (field_if t (varint_field 2 m.alias)) (aliased d t m)
  Reads-aliased true m s =
      Reads-round _ _ (λ dm rest. round-varint d dm 2 m.alias rest (omega arith) refl s.alias_fits)
  Reads-aliased false m s = Reads-nothing

  -- A field that the decoder passes over.
  Reads-other :
      (t : Bool) (field v : ℕ)
      → (field == 3 || field == 5) ≡ true
      → v < 2 ^ 64
      → Reads (field_if t (varint_field field v)) (λ dm. dm)
  Reads-other true field v is h = Reads-round _ _ (λ dm rest. round-other d dm field v rest is h)
  Reads-other false field v is h = Reads-nothing

  Reads-bool :
      (field : ℕ) (v : Bool) (f : Decoded → Decoded)
      → Reads (varint_field field (if v then 1 else 0)) f
      → Reads (bool_field field v) f
  Reads-bool field v f h = subst (λ xs. Reads xs f) (sym (bool_field-varint_field field v)) h

  Reads-valued :
      (k : ValueKind) (m : Metric D) → Sendable d m → Reads (value_as d k m) (valued d k m)
  Reads-valued (int_value bits) m s =
      let small : m.i64 % 2 ^ bits < 2 ^ 64 = omega (arith, mod-le m.i64 (2 ^ bits), s.i64_fits) in
      Reads-round _ _
        (λ dm rest. round-varint d dm 10 (m.i64 % 2 ^ bits) rest (omega arith) refl small)
  Reads-valued long_value m s =
      Reads-round _ _ (λ dm rest. round-varint d dm 11 m.i64 rest (omega arith) refl s.i64_fits)
  Reads-valued float_value m s =
      Reads-round _ _ (λ dm rest. round-float d dm (d.float_bits m.dbl) rest s.float_fits)
  Reads-valued double_value m s =
      Reads-round _ _ (λ dm rest. round-double d dm (d.double_bits m.dbl) rest s.double_fits)
  Reads-valued bool_value m s =
      Reads-bool 14 (not (m.i64 == 0)) _
        (Reads-round _ _ (λ dm rest. round-varint d dm 14 _ rest (omega arith) refl (bit_small _)))
    where
      bit_small : (v : Bool) → (if v then 1 else 0) < 2 ^ 64
      bit_small true = omega arith
      bit_small false = omega arith
  Reads-valued string_value m s =
      Reads-round _ _
        (λ dm rest. round-text d dm 15 (bytes_of m.str) rest refl (omega (arith, s.str_fits)))
  Reads-valued no_value m s = Reads-nothing

  Reads-ended :
      (null : Bool) (m : Metric D)
      → Sendable d m
      → Reads (if null then bool_field 7 true else value_layout d m) (ended d null m)
  unfolding value_layout
  Reads-ended true m s =
      Reads-bool 7 true _
        (Reads-round _ _ (λ dm rest. round-varint d dm 7 1 rest (omega arith) refl (omega arith)))
  Reads-ended false m s = Reads-valued (value_kind m.datatype) m s

  pub Reads-metric : (m : Metric D) → Sendable d m → Reads (metric_layout d m) (gathered d m)
  unfolding metric_layout
  Reads-metric m s = Reads-then _ _ _ _ (Reads-named (is_set (bytes_of m.name)) m s) (
      Reads-then _ _ _ _ (Reads-aliased m.has_alias m s) (
        Reads-then _ _ _ _ (Reads-other _ 3 m.timestamp_ms refl s.time_fits) (
          Reads-then _ _ _ _
            (Reads-round _ _ (λ dm rest.
              round-varint d dm 4 m.datatype rest (omega arith) refl (omega (arith, s.type_fits))))
            (Reads-then _ _ _ _ (historical m.is_historical) (Reads-ended m.is_null m s)))))
    where
      historical : (t : Bool) → Reads (field_if t (bool_field 5 true)) (λ dm. dm)
      historical true = Reads-bool 5 true _ (Reads-other true 5 1 refl (omega arith))
      historical false = Reads-nothing

  -- `decode_metric` reads a whole metric.
  pub decode_metric-metric_layout :
      (m : Metric D)
      → Sendable d m
      → decode_metric d (metric_layout d m) ≡ some (finish_metric d (gathered d m blank_metric))
  unfolding decode_metric decode_loop
  decode_metric-metric_layout m s =
      let bs = metric_layout d m in
      let whole : decode_loop d (length bs) blank_metric bs ≡ some (gathered d m blank_metric) =
        subst (λ xs. decode_loop d (length xs) blank_metric xs ≡ some (gathered d m blank_metric))
          (append-nil bs) (Reads-metric m s blank_metric []) in
      rw whole refl
