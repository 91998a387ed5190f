-- ===== src/Delivery/Handled.antt =====
-- internal/consumer/consumer.go: the handler sees an event once.
use appt_remind.Base.{
  ◌≡◌, refl, sym, ◌∙◌, inl, inr, ◌+◌, ◌≤◌, Bool, true, false, ◌||◌, some, List, [], ◌∷◌, ◌++◌,
  String, ◌==◌, eq_iff, count, arith, Bool-cases, if◌then◌else◌,
}
use appt_remind.Delivery.{
  EventMeta, extract_event_meta, is_known, record_inbox, Delivery, Consumer, dispatch, consume,
  run_consumer,
}

-- An event is handled at most once, and only once it is in the inbox.
pub record IsOnce {D : Type 0} (c : Consumer D) : Type 0 where
  pub once : (id : String) → count (λ h. h == id) c.handled ≤ 1
  pub known : (id : String) → is_known id c.inbox ≡ false → count (λ h. h == id) c.handled ≡ 0

count_last :
    (p : String → Bool) (ids : List String) (id : String)
    → count p (ids ++ id ∷ []) ≡ count p ids + (if p id then 1 else 0)
count_last p [] id = omega arith
count_last p (i ∷ ids) id = let rest = count_last p ids id in omega arith

is_known_last :
    (id : String) (inbox : List EventMeta) (meta : EventMeta)
    → is_known id (inbox ++ meta ∷ []) ≡ (is_known id inbox || meta.event_id == id)
unfolding is_known
is_known_last id [] meta = ground arith
is_known_last id (e ∷ inbox) meta = let rest = is_known_last id inbox meta in ground arith

or_false : (a b : Bool) → a || b ≡ false → (a ≡ false) × (b ≡ false)
or_false true b e = cc
or_false false b e = (refl, e)

module _ {D : Type 0} (d : Delivery D) (meta : EventMeta) (c : Consumer D) (h : IsOnce c) where
  handled_new :
      is_known meta.event_id c.inbox ≡ false
      → IsOnce (dispatch d meta c.service c.handled (some true, c.inbox ++ meta ∷ []))
  handled_new fresh = record { once = once; known = known }
    where
      once : (id : String) → count (λ k. k == id) (c.handled ++ meta.event_id ∷ []) ≤ 1
      once id = elim (Bool-cases (meta.event_id == id)) [
        | inl e ↦
            let same : meta.event_id ≡ id = (eq_iff meta.event_id id).0 e in
            let f = count_last (λ k. k == id) c.handled meta.event_id in
            let g = h.known meta.event_id fresh in
            let k : count (λ k. k == id) c.handled ≡ 0 = rw (sym same) g in rw (f, e) (omega arith)
        | inr e ↦
            let f = count_last (λ k. k == id) c.handled meta.event_id in
            let g = h.once id in rw (f, e) (omega arith)
      ]

      known :
          (id : String)
          → is_known id (c.inbox ++ meta ∷ []) ≡ false
          → count (λ k. k == id) (c.handled ++ meta.event_id ∷ []) ≡ 0
      known id e =
          let split = is_known_last id c.inbox meta in
          let f = count_last (λ k. k == id) c.handled meta.event_id in
          let (old, other) = or_false _ _ (sym split ∙ e) in
          let g = h.known id old in rw (f, other) (omega arith)

  recorded-IsOnce :
      IsOnce (dispatch d meta c.service c.handled (record_inbox d.inbox_fails meta c.inbox))
  unfolding record_inbox
  recorded-IsOnce = elim (Bool-cases d.inbox_fails) [
    | inl e ↦ rw e record { once = h.once; known = h.known }
    | inr e ↦ elim (Bool-cases (is_known meta.event_id c.inbox)) [
      | inl k ↦ rw (e, k) record { once = h.once; known = h.known }
      | inr k ↦ rw (e, k) (handled_new k)
    ]
  ]

consume-IsOnce : {D : Type 0} (d : Delivery D) (c : Consumer D) → IsOnce c → IsOnce (consume d c)
unfolding consume
consume-IsOnce d c h = recorded-IsOnce d (extract_event_meta d.message) c h

-- Whatever messages are read, however often each of them, and whatever the inbox and the handler refuse, the
-- handler is called at most once with each event id, if this holds before and only events of the inbox have
-- been handled.
pub run_consumer-IsOnce :
    {D : Type 0} (deliveries : List (Delivery D)) (c : Consumer D)
    → IsOnce c
    → IsOnce (run_consumer deliveries c)
unfolding run_consumer
run_consumer-IsOnce [] c h = h
run_consumer-IsOnce (d ∷ deliveries) c h =
    run_consumer-IsOnce deliveries (consume d c) (consume-IsOnce d c h)
