-- ===== src/Node/Topics.antt =====
-- app/engine/sparkplug.c: which topics a command topic of the node covers.
use event_engine_acap.Prelude.{◌≡◌, refl, sym, ap, subst, ◌∙◌, ◌↔◌, true, [], ◌∷◌, ◌++◌, Str, arith}
use event_engine_acap.Node.State.{is_set, below_prefix, topic_matches}

-- The levels that follow a prefix: none, or a slash and what is after it.
pub data Levels : Str → Type 0 where
  end : Levels []
  deeper : (rest : Str) → Levels (b'/' ∷ rest)

below_prefix-split :
    (topic prefix : Str)
    → below_prefix topic prefix ≡ true
    → (rest : Str) × (topic ≡ prefix ++ rest) × Levels rest
unfolding below_prefix
below_prefix-split [] [] h = ([], refl, end)
below_prefix-split (c ∷ topic) [] h =
    let slash : c ≡ b'/' = ground arith in
    (c ∷ topic, refl, subst (λ x. Levels (x ∷ topic)) (sym slash) (deeper topic))
below_prefix-split [] (p ∷ prefix) h = ground arith
below_prefix-split (c ∷ topic) (p ∷ prefix) h =
    let (rest, e, l) = below_prefix-split topic prefix (ground arith) in
    let same : c ≡ p = ground arith in (rest, ap (λ x. x ∷ topic) same ∙ ap (◌∷◌ p) e, l)

below_prefix-append :
    (prefix rest : Str) → Levels rest → below_prefix (prefix ++ rest) prefix ≡ true
unfolding below_prefix
below_prefix-append [] _ end = refl
below_prefix-append [] _ (deeper rest) = refl
below_prefix-append (p ∷ prefix) rest l = ground (arith, below_prefix-append prefix rest l)

-- A topic matches a command topic exactly when the command topic is set, and the topic is it or a
-- level below it: the topic of another node, whose name only starts the same, does not match.
pub topic_matches_iff :
    (topic prefix : Str)
    → (topic_matches topic prefix ≡ true)
      ↔ ((is_set prefix ≡ true) × ((rest : Str) × (topic ≡ prefix ++ rest) × Levels rest))
unfolding topic_matches
topic_matches_iff topic prefix = (
  λ h. (ground arith, below_prefix-split topic prefix (ground arith)),
  λ (s, (rest, e, l)). rw (s, e) (below_prefix-append prefix rest l),
)
