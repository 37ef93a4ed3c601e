-- ===== src/Modbus/Slots.antt =====
-- app/engine/modbus_pool.c: the same settings always get the same connection.
use event_engine_acap.Prelude.{
  ℕ, zero, suc, ◌<◌, ◌≡◌, ◌≢◌, refl, sym, ap, ◌∙◌, Bool, true, false, ◌==◌, Bool-cases,
  Option-cases, inl, inr, Option, none, some, [], ◌∷◌, Str, codes, str_eq_iff, set, get_or,
  replicate, get_or-set_self, get_or-set_ne, length, arith,
}
use event_engine_acap.Cjson.{Cjson, string_of}
use event_engine_acap.Table.{index_of, index_at, index_before, index_none}
use event_engine_acap.Modbus.Requests.{Transport, mb_tcp, mb_rtu, mb_serial_gw, Ctx}
use event_engine_acap.Modbus.Pool.{
  transport_of, Pool, empty_pool, slot_free, slot_has, key_of, new_ctx, get_slot, modbus_pool_get,
}

module _ (p : Option Ctx → Bool) where
  index_set :
      (pool : Pool) (i : ℕ) (o : Option Ctx)
      → index_of p pool ≡ none
      → p o ≡ true
      → i < length pool
      → index_of p (set pool i o) ≡ some i
  unfolding index_of
  index_set [] i o e hit h = absurd (omega arith)
  index_set (x ∷ pool) zero o e hit h = rw hit refl
  index_set (x ∷ pool) (suc i) o e hit h = elim (Bool-cases (p x)) [
    | inl first ↦ absurd (ground arith)
    | inr miss ↦ elim (Option-cases (index_of p pool)) [
      | inl gone ↦ rw (miss, index_set pool i o gone hit (omega arith)) refl
      | inr (j, at) ↦ absurd (ground arith)
    ]
  ]

get_or-lt : (pool : Pool) (i : ℕ) (c : Ctx) → get_or pool i none ≡ some c → i < length pool
get_or-lt [] i c e = cc
get_or-lt (o ∷ pool) zero c e = omega arith
get_or-lt (o ∷ pool) (suc i) c e = omega (arith, get_or-lt pool i c e)

has_some :
    (key : Str) (o : Option Ctx) → slot_has key o ≡ true → (c : Ctx) × (o ≡ some c) × (c.key ≡ key)
has_some key none e = cc
has_some key (some c) e = (c, refl, (str_eq_iff c.key key).0 e)

busy_some : (o : Option Ctx) → slot_free o ≡ false → (c : Ctx) × (o ≡ some c)
busy_some none e = cc
busy_some (some c) e = (c, refl)

free_none : (o : Option Ctx) → slot_free o ≡ true → o ≡ none
free_none none e = refl
free_none (some c) e = cc

abbrev key_or : Str → Option Ctx → Str
key_or k none = k
key_or k (some c) = c.key

-- The keys of the slots in use are different.
abbrev pub IsValid : Pool → Type 0
IsValid pool =
    (i j : ℕ) (c d : Ctx)
    → get_or pool i none ≡ some c
    → get_or pool j none ≡ some d
    → c.key ≡ d.key
    → i ≡ j

get_slot-found :
    {J D : Type 0} (cj : Cjson J D) (transport : Transport) (key : Str) (cfg : J) (pool : Pool)
    (i : ℕ)
    → index_of (slot_has key) pool ≡ some i
    → get_slot cj transport key cfg pool ≡ (pool, some i)
unfolding get_slot
get_slot-found cj transport key cfg pool i at = rw (at, get_slot) refl

module _ {J D : Type 0} (cj : Cjson J D) (transport : Transport) (key : Str) (cfg : J)
    (pool : Pool) where
  -- The outcome of `modbus_pool_get` for a key.
  pub data Got : Pool × Option ℕ → Type 0 where
    -- The connection that has the key is returned, and nothing changes.
    there : (i : ℕ) (c : Ctx) → get_or pool i none ≡ some c → c.key ≡ key → Got (pool, some i)
    -- No slot has the key, and the first free one becomes the new connection.
    made :
        (i : ℕ) (pool' : Pool)
        → ((j : ℕ) (c : Ctx) → get_or pool j none ≡ some c → c.key ≢ key)
        → (i < length pool) × (get_or pool i none ≡ none)
        → ((j : ℕ) → j < i → (c : Ctx) × (get_or pool j none ≡ some c))
        → get_or pool' i none ≡ some (new_ctx cj transport key cfg)
        → ((j : ℕ) → i ≢ j → get_or pool' j none ≡ get_or pool j none)
        → Got (pool', some i)
    -- No slot has the key and none is free.
    full :
        ((j : ℕ) → j < length pool → (c : Ctx) × (get_or pool j none ≡ some c) × (c.key ≢ key))
        → Got (pool, none)

  get_slot-full :
      index_of (slot_has key) pool ≡ none
      → index_of slot_free pool ≡ none
      → get_slot cj transport key cfg pool ≡ (pool, none)
  unfolding get_slot
  get_slot-full gone busy = rw (gone, get_slot, busy) refl

  get_slot-made :
      (i : ℕ)
      → index_of (slot_has key) pool ≡ none
      → index_of slot_free pool ≡ some i
      → get_slot cj transport key cfg pool
        ≡ (set pool i (some (new_ctx cj transport key cfg)), some i)
  unfolding get_slot
  get_slot-made i gone at = rw (gone, get_slot, at) refl

  new_key : (new_ctx cj transport key cfg).key ≡ key
  unfolding new_ctx
  new_key = elim transport as (λ t. (new_ctx cj t key cfg).key ≡ key) [
    | mb_tcp ↦ refl
    | mb_rtu ↦ refl
    | mb_serial_gw ↦ refl
  ]

  no_key :
      index_of (slot_has key) pool ≡ none
      → (j : ℕ) (c : Ctx) → get_or pool j none ≡ some c
      → c.key ≢ key
  no_key gone j c e same =
      let miss = index_none (slot_has key) none pool j gone (get_or-lt pool j c e) in
      ground (arith, ap (slot_has key) e, str_eq_iff c.key key)

  get_slot-Got : Got (get_slot cj transport key cfg pool)
  get_slot-Got = elim (Option-cases (index_of (slot_has key) pool)) [
    | inr (i, at) ↦
        let (inside, holds) = index_at (slot_has key) none pool i at in
        let (c, e, same) = has_some key (get_or pool i none) holds in
        rw (get_slot-found cj transport key cfg pool i at) (there i c e same)
    | inl gone ↦ elim (Option-cases (index_of slot_free pool)) [
      | inl busy ↦ rw (get_slot-full gone busy) (
          full (λ j lt.
            let (c, e) =
              busy_some (get_or pool j none) (index_none slot_free none pool j busy lt) in
            (c, e, no_key gone j c e)))
      | inr (i, at) ↦
          let (inside, holds) = index_at slot_free none pool i at in
          rw (get_slot-made i gone at) (
            made i (set pool i (some (new_ctx cj transport key cfg))) (no_key gone)
              (inside, free_none (get_or pool i none) holds)
              (λ j lt. busy_some (get_or pool j none) (index_before slot_free none pool i j at lt))
              (get_or-set_self pool i (some (new_ctx cj transport key cfg)) none inside)
              (λ j apart. get_or-set_ne pool (some (new_ctx cj transport key cfg)) none apart))
    ]
  ]

  -- After a call the slot is found by its key.
  index_after :
      (pool' : Pool) (i : ℕ)
      → get_slot cj transport key cfg pool ≡ (pool', some i)
      → index_of (slot_has key) pool' ≡ some i
  index_after pool' i e = elim (Option-cases (index_of (slot_has key) pool)) [
    | inr (j, at) ↦
        let same = sym (get_slot-found cj transport key cfg pool j at) ∙ e in
        ap (λ (r : Pool × Option ℕ). index_of (slot_has key) r.0) (sym same)
        ∙ at
        ∙ ap (λ (r : Pool × Option ℕ). r.1) same
    | inl gone ↦ elim (Option-cases (index_of slot_free pool)) [
      | inl busy ↦ absurd (ground (arith, get_slot-full gone busy))
      | inr (j, at) ↦
          let new = some (new_ctx cj transport key cfg) in
          let same = sym (get_slot-made j gone at) ∙ e in
          let (inside, holds) = index_at slot_free none pool j at in
          let hit : slot_has key new ≡ true =
            (str_eq_iff (new_ctx cj transport key cfg).key key).1 new_key in
          ap (λ (r : Pool × Option ℕ). index_of (slot_has key) r.0) (sym same)
          ∙ index_set (slot_has key) pool j new gone hit inside
          ∙ ap (λ (r : Pool × Option ℕ). r.1) same
    ]
  ]

  Got-IsValid : (r : Pool × Option ℕ) → IsValid pool → Got r → IsValid r.0
  Got-IsValid _ v (there i c e same) = v
  Got-IsValid _ v (full all) = v
  Got-IsValid _ v (made i pool' fresh empty busy new others) = λ a b c d ea eb same.
      elim (Bool-cases (i == a)) [
        | inl first ↦ elim (Bool-cases (i == b)) [
          | inl second ↦ ground arith
          | inr second ↦
              let apart : i ≢ b = ground arith in
              let here : i ≡ a = ground arith in
              let made' : some c ≡ some (new_ctx cj transport key cfg) =
                sym ea ∙ ap (λ k. get_or pool' k none) (sym here) ∙ new in
              absurd
                (fresh b d (sym (others b apart) ∙ eb) (sym same ∙ ap (key_or key) made' ∙ new_key))
        ]
        | inr first ↦ elim (Bool-cases (i == b)) [
          | inl second ↦
              let apart : i ≢ a = ground arith in
              let here : i ≡ b = ground arith in
              let made' : some d ≡ some (new_ctx cj transport key cfg) =
                sym eb ∙ ap (λ k. get_or pool' k none) (sym here) ∙ new in
              absurd
                (fresh a c (sym (others a apart) ∙ ea) (same ∙ ap (key_or key) made' ∙ new_key))
          | inr second ↦
              let apart : i ≢ a = ground arith in
              let apart' : i ≢ b = ground arith in
              v a b c d (sym (others a apart) ∙ ea) (sym (others b apart') ∙ eb) same
        ]
      ]

abbrev pub transport_in : {J D : Type 0} → Cjson J D → J → Transport
transport_in cj cfg = transport_of (string_of cj cfg (codes "connection_type"))

abbrev pub key_in : {J D : Type 0} → Cjson J D → J → Str
key_in cj cfg = key_of cj (transport_in cj cfg) cfg

-- `modbus_pool_get` on a pool whose keys are different returns the connection that has the key of the
-- settings, and changes nothing; else the first free slot becomes one with the key, and no other
-- slot changes; else every slot is in use under another key, and it fails. The keys stay different,
-- and a later call with settings of the same key returns the same slot.
pub modbus_pool_get-Got :
    {J D : Type 0} (cj : Cjson J D) (cfg : J) (pool : Pool)
    → IsValid pool
    → let r = modbus_pool_get cj (some cfg) pool in
      Got cj (transport_in cj cfg) (key_in cj cfg) cfg pool r
      × IsValid r.0
      × ((i : ℕ) (cfg' : J)
          → r.1 ≡ some i
          → key_in cj cfg' ≡ key_in cj cfg
          → modbus_pool_get cj (some cfg') r.0 ≡ (r.0, some i))
unfolding modbus_pool_get
modbus_pool_get-Got cj cfg pool v =
    let t = transport_in cj cfg in
    let key = key_in cj cfg in
    let r = get_slot cj t key cfg pool in
    let got = get_slot-Got cj t key cfg pool in
    (
      got,
      Got-IsValid cj t key cfg pool r v got,
      λ i cfg' e same.
          let found = index_after cj t key cfg pool r.0 i (ap (λ o. (r.0, o)) e) in
          get_slot-found cj (transport_in cj cfg') (key_in cj cfg') cfg' r.0 i
            (ap (λ k. index_of (slot_has k) r.0) same ∙ found),
    )

get_or-replicate : (n i : ℕ) → get_or (replicate n (let o : Option Ctx = none in o)) i none ≡ none
get_or-replicate zero i = refl
get_or-replicate (suc n) zero = refl
get_or-replicate (suc n) (suc i) = get_or-replicate n i

pub empty_pool-IsValid : IsValid empty_pool
unfolding empty_pool
empty_pool-IsValid i j c d ei ej same = absurd (ground (arith, get_or-replicate 16 i))
