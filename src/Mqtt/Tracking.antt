-- ===== src/Mqtt/Tracking.antt =====
-- app/engine/mqtt_client.c: which slot a QoS 1 message takes.
use event_engine_acap.Prelude.{
  ℕ, ◌+◌, ◌<◌, ◌≡◌, ◌≢◌, refl, ◌⊎◌, inl, inr, Bool, true, false, Bool-cases, Option-cases, Option,
  none, some, List, length, get_or, get_or-set_self, get_or-set_ne,
}
use event_engine_acap.Table.{index_of, index_at, index_before, index_none}
use event_engine_acap.Mqtt.Inflight.{InflightMsg, Inflight, is_free, inflight_add}

-- A message that was sent is put into the table, from the time `now` on: into the first free slot, if
-- there is one and memory for the packet.
pub data Tracked (alloc : ℕ → Bool) (now pid : ℕ) (pkt : List ℕ) (t t' : Inflight) : Type 0 where
  in_slot :
      (i : ℕ)
      → (i < length t.slots) × (get_or t.slots i none ≡ none)
      → ((j : ℕ) → j < i → get_or t.slots j none ≢ none)
      → get_or t'.slots i none
        ≡ some (record { pid = pid; packet = pkt; sent_at = now; retries = 0 })
      → ((j : ℕ) → i ≢ j → get_or t'.slots j none ≡ get_or t.slots j none)
      → t'.count ≡ t.count + 1
      → Tracked alloc now pid pkt t t'
  no_room :
      ((j : ℕ) → j < length t.slots → get_or t.slots j none ≢ none) ⊎ (alloc (length pkt) ≡ false)
      → t' ≡ t
      → Tracked alloc now pid pkt t t'

busy_slot : (o : Option InflightMsg) → is_free o ≡ false → o ≢ none
busy_slot none e = λ h. cc
busy_slot (some m) e = λ h. cc

free_slot : (o : Option InflightMsg) → is_free o ≡ true → o ≡ none
free_slot none e = refl
free_slot (some m) e = cc

pub inflight_add-Tracked :
    (alloc : ℕ → Bool) (now pid : ℕ) (pkt : List ℕ) (t : Inflight)
    → Tracked alloc now pid pkt t (inflight_add alloc now pid pkt t)
unfolding inflight_add
inflight_add-Tracked alloc now pid pkt t = elim (Option-cases (index_of is_free t.slots)) [
  | inl e ↦
      rw (e, inflight_add)
        (no_room
          (inl (λ j h. busy_slot (get_or t.slots j none) (index_none is_free none t.slots j e h)))
          refl)
  | inr (i, e) ↦
      rw (e, inflight_add)
        (elim (Bool-cases (alloc (length pkt))) [
          | inr poor ↦ rw poor (no_room (inr poor) refl)
          | inl rich ↦
              let (inside, here) = index_at is_free none t.slots i e in
              let m = some (record { pid = pid; packet = pkt; sent_at = now; retries = 0 }) in
              rw rich (
                in_slot i (inside, free_slot (get_or t.slots i none) here)
                  (λ j h.
                    busy_slot (get_or t.slots j none) (index_before is_free none t.slots i j e h))
                  (get_or-set_self t.slots i m none inside)
                  (λ j apart. get_or-set_ne t.slots m none apart) refl)
        ])
]
