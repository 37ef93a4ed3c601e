-- ===== src/Node/History.antt =====
-- app/engine/sparkplug.c: the ring of samples seen as a list, the oldest first, and its replay.
use event_engine_acap.Prelude.{
  ℕ, zero, suc, ◌+◌, ◌-◌, ◌%◌, ◌≤◌, ◌<◌, ◌≡◌, refl, sym, ap, ap₂, ◌∙◌, ◌≢◌, inl, inr, false, ltb,
  List, [], ◌∷◌, ◌++◌, Str, arith, length, drop, get_or, set, get_or-set_self, get_or-set_ne,
  length-set, length-append, Bool-cases,
}
use event_engine_acap.Node.State.{spb_history_max, Sample, Node}
use event_engine_acap.Node.Buffer.{
  no_sample, sample_at, appended, overwritten, taken, buffer_sample,
}

pub record IsValid (n : Node) : Type 0 where
  pub full_size : length n.history ≡ spb_history_max
  pub head_in : n.hist_head < spb_history_max
  pub count_in : n.hist_count ≤ spb_history_max

-- `m` samples from age `k` on.
abbrev pub samples_from : Node → ℕ → ℕ → List Sample
samples_from n k zero = []
samples_from n k (suc m) = sample_at n k ∷ samples_from n (k + 1) m

abbrev pub samples : Node → List Sample
samples n = samples_from n 0 n.hist_count

pub length-samples_from : (n : Node) (k m : ℕ) → length (samples_from n k m) ≡ m
length-samples_from n k zero = refl
length-samples_from n k (suc m) = ap suc (length-samples_from n (k + 1) m)

samples_from-snoc :
    (n : Node) (k m : ℕ)
    → samples_from n k (suc m) ≡ samples_from n k m ++ (sample_at n (k + m) ∷ [])
samples_from-snoc n k zero = ap (λ j. sample_at n j ∷ []) (omega arith)
samples_from-snoc n k (suc m) = ap (◌∷◌ (sample_at n k)) (
    samples_from-snoc n (k + 1) m
    ∙ ap (λ j. samples_from n (k + 1) m ++ (sample_at n j ∷ [])) (omega arith))

-- The last `spb_history_max` of a list.
abbrev pub latest : List Sample → List Sample
latest ss = drop (length ss - spb_history_max) ss

module _ (s : Sample) (n : Node) (v : IsValid n) where
  appended-old :
      (k m : ℕ)
      → k + m ≤ n.hist_count
      → n.hist_count < 256
      → samples_from (appended s n) k m ≡ samples_from n k m
  appended-old k zero h r = refl
  appended-old k (suc m) h r =
      ap₂ ◌∷◌ (get_or-set_ne n.history {j = (n.hist_head + k) % 256} s no_sample other)
        (appended-old (k + 1) m (omega arith) r)
    where
      other : (n.hist_head + n.hist_count) % 256 ≢ (n.hist_head + k) % 256
      other = omega (arith, v.head_in)

  appended-new : n.hist_count < 256 → sample_at (appended s n) n.hist_count ≡ s
  appended-new r =
      get_or-set_self n.history ((n.hist_head + n.hist_count) % 256) s no_sample
        (omega (arith, v.full_size))

  samples-appended : n.hist_count < 256 → samples (appended s n) ≡ samples n ++ (s ∷ [])
  samples-appended r =
      ap (samples_from (appended s n) 0) {y = suc n.hist_count} (omega arith)
      ∙ samples_from-snoc (appended s n) 0 n.hist_count
      ∙ ap₂ (λ ss t. ss ++ (t ∷ [])) (appended-old 0 n.hist_count (omega arith) r)
          (ap (sample_at (appended s n)) {y = n.hist_count} (omega arith) ∙ appended-new r)

  overwritten-old :
      (k m : ℕ) → k + m ≤ 255 → samples_from (overwritten s n) k m ≡ samples_from n (k + 1) m
  overwritten-old k zero h = refl
  overwritten-old k (suc m) h =
      ap₂ ◌∷◌
        (ap (λ j. get_or (set n.history n.hist_head s) j no_sample) shift
          ∙ get_or-set_ne n.history s no_sample other)
        (overwritten-old (k + 1) m (omega arith))
    where
      shift : ((n.hist_head + 1) % 256 + k) % 256 ≡ (n.hist_head + (k + 1)) % 256
      shift = omega (arith, v.head_in)

      other : n.hist_head ≢ (n.hist_head + (k + 1)) % 256
      other = omega (arith, v.head_in)

  overwritten-new : sample_at (overwritten s n) 255 ≡ s
  overwritten-new =
      ap (λ j. get_or (set n.history n.hist_head s) j no_sample) last
      ∙ get_or-set_self n.history n.hist_head s no_sample (omega (arith, v.full_size, v.head_in))
    where
      last : ((n.hist_head + 1) % 256 + 255) % 256 ≡ n.hist_head
      last = omega (arith, v.head_in)

  samples-overwritten :
      n.hist_count ≡ 256 → samples (overwritten s n) ≡ samples_from n 1 255 ++ (s ∷ [])
  samples-overwritten full =
      ap (samples_from (overwritten s n) 0) full
      ∙ samples_from-snoc (overwritten s n) 0 255
      ∙ ap₂ (λ ss t. ss ++ (t ∷ [])) (overwritten-old 0 255 (omega arith)) overwritten-new

-- One sample more, and the oldest of a full ring is lost.
pub samples-buffer_sample :
    (def_idx : ℕ) (value : Str) (ts : ℕ) (n : Node)
    → IsValid n
    → IsValid (buffer_sample def_idx value ts n)
      × (samples (buffer_sample def_idx value ts n)
          ≡ latest (samples n ++ (taken def_idx value ts ∷ [])))
unfolding buffer_sample
samples-buffer_sample def_idx value ts n v = elim (Bool-cases (ltb n.hist_count spb_history_max)) [
  | inl room ↦ rw room (
    record {
      full_size = length-set n.history ((n.hist_head + n.hist_count) % 256) s ∙ v.full_size;
      head_in = v.head_in;
      count_in = ground arith;
    },
    samples-appended s n v (ground arith)
        ∙ sym (
            ap (λ k. drop k (samples n ++ (s ∷ []))) {y = 0}
              (ground
                (arith, length-append (samples n) (s ∷ []), length-samples_from n 0 n.hist_count))),
  )
  | inr full ↦ rw full (
    record {
      full_size = length-set n.history n.hist_head s ∙ v.full_size;
      head_in = omega arith;
      count_in = v.count_in;
    },
    samples-overwritten s n v (all full) ∙ sym (one_out (all full)),
  )
]
  where
    s : Sample
    s = taken def_idx value ts

    all : ltb n.hist_count spb_history_max ≡ false → n.hist_count ≡ 256
    all full = ground (arith, v.count_in)

    one_out : n.hist_count ≡ 256 → latest (samples n ++ (s ∷ [])) ≡ samples_from n 1 255 ++ (s ∷ [])
    one_out c =
        ap (λ k. drop k (samples n ++ (s ∷ []))) {y = 1}
          (omega
            (arith, c, length-append (samples n) (s ∷ []), length-samples_from n 0 n.hist_count))
        ∙ ap (λ k. drop 1 (samples_from n 0 k ++ (s ∷ []))) c
