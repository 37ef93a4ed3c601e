-- ===== src/Node/Agreement.antt =====
-- app/engine/sparkplug.c: what the host knows of the node, and what it is to accept its calls.
use event_engine_acap.Prelude.{
  ℕ, ◌≡◌, refl, sym, ap, ◌∙◌, inl, inr, true, ◌==◌, some, List, [], ◌∷◌, ◌++◌, arith, Option-cases,
}
use event_engine_acap.Node.State.{Node, is_set}
use event_engine_acap.Node.Publishing.{Call}
use event_engine_acap.Node.Host.{Host, heard, hear_all, and_then}

-- What the host knows is what the node means.
pub record Agrees (n : Node) (h : Host) : Type 0 where
  pub same_seq : h.next_seq ≡ n.seq
  pub same_bdseq : h.bdseq ≡ n.bdseq
  pub node_born : n.birth_sent ≡ true → h.node_born ≡ true
  pub device_born : n.birth_sent ≡ true → is_set n.device_id ≡ true → h.device_born ≡ true

pub eq_self : (a b : ℕ) → b ≡ a → (a == b) ≡ true
eq_self a b e = ground arith

-- A node that differs in nothing the host knows.
pub Agrees-same :
    {n : Node} {h : Host} (n' : Node)
    → Agrees n h
    → n'.seq ≡ n.seq
    → n'.bdseq ≡ n.bdseq
    → n'.birth_sent ≡ n.birth_sent
    → n'.device_id ≡ n.device_id
    → Agrees n' h
Agrees-same n' a s e b i = record {
  same_seq = a.same_seq ∙ sym s;
  same_bdseq = a.same_bdseq ∙ sym e;
  node_born = λ t. a.node_born (sym b ∙ t);
  device_born = λ t t'. a.device_born (sym b ∙ t) (sym (ap is_set i) ∙ t');
}

module _ {D : Type 0} where
  -- The host accepts the calls, and agrees with the node after them.
  abbrev pub Accepted : Host → Node × List (Call D) → Type 0
  Accepted h r = (h' : Host) × (hear_all r.1 h ≡ some h') × Agrees r.0 h'

  pub Accepted-cons :
      (h h' : Host) (c : Call D) (n : Node) (cs : List (Call D))
      → heard h c ≡ some h'
      → Accepted h' (n, cs)
      → Accepted h (n, c ∷ cs)
  unfolding hear_all
  Accepted-cons h h' c n cs e (h'', e', a) = (h'', ap (λ o. and_then o (hear_all cs)) e ∙ e', a)

  pub Accepted-one :
      (h h' : Host) (c : Call D) (n : Node)
      → heard h c ≡ some h'
      → Agrees n h'
      → Accepted h (n, c ∷ [])
  unfolding hear_all
  Accepted-one h h' c n e a = Accepted-cons h h' c n [] e (h', refl, a)

  hear_all-append :
      (cs cs' : List (Call D)) (h : Host)
      → hear_all (cs ++ cs') h ≡ and_then (hear_all cs h) (hear_all cs')
  unfolding hear_all
  hear_all-append [] cs' h = refl
  hear_all-append (c ∷ cs) cs' h = elim (Option-cases (heard h c)) [
    | inl e ↦ rw e refl
    | inr (h', e) ↦ rw e (hear_all-append cs cs' h')
  ]

  pub Accepted-append :
      (h : Host) (n n' : Node) (cs cs' : List (Call D))
      → Accepted h (n, cs)
      → ((h' : Host) → Agrees n h' → Accepted h' (n', cs'))
      → Accepted h (n', cs ++ cs')
  Accepted-append h n n' cs cs' (h', e, a) next =
      let (h'', e', a') = next h' a in
      (h'', hear_all-append cs cs' h ∙ ap (λ o. and_then o (hear_all cs')) e ∙ e', a')
