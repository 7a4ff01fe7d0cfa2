-- ===== src/Core/EventBus/Delivery.antt =====
-- What a subscriber of core/eventbus.py finds in its queue.
use mathlib.Core.List.{append-nil}
use vishwakarma.Prelude.{
  ℕ, zero, suc, ◌+◌, ◌-◌, ◌≤◌, ◌<◌, ◌≡◌, refl, sym, ap, ◌∙◌, inl, inr, true, false, List, [], ◌∷◌,
  ◌++◌, map, arith, ltb, leb, ltb→lt, lt→ltb, Bool-cases, length, all, length-append,
}
use vishwakarma.Core.EventBus.{
  Subscriber, Bus, subscriber_queue_max, put_nowait, drop_oldest, make_room, deliver, delivered,
  deliver_local, publish,
}

module _ {E : Type 0} where
  abbrev pub skip : ℕ → List E → List E
  skip zero xs = xs
  skip (suc n) [] = []
  skip (suc n) (x ∷ xs) = skip n xs

  -- the last `n` of a list
  abbrev pub last : ℕ → List E → List E
  last n xs = skip (length xs - n) xs

  unfoldable pub deliver_all : ℕ → List E → List E → List E
  deliver_all maxsize [] events = events
  deliver_all maxsize (e ∷ es) events = deliver_all maxsize es (deliver maxsize e events)

  append_assoc : (xs ys zs : List E) → (xs ++ ys) ++ zs ≡ xs ++ (ys ++ zs)
  append_assoc [] ys zs = refl
  append_assoc (x ∷ xs) ys zs = ap (λ r. x ∷ r) (append_assoc xs ys zs)

  length-skip : (n : ℕ) (xs : List E) → length (skip n xs) ≡ length xs - n
  length-skip zero xs = omega arith
  length-skip (suc n) [] = omega arith
  length-skip (suc n) (x ∷ xs) = omega (arith, length-skip n xs)

  skip-cong : (i j : ℕ) (xs : List E) → i ≡ j → skip i xs ≡ skip j xs
  skip-cong i j xs e = ap (λ k. skip k xs) e

  skip-nil : (n : ℕ) → skip n [] ≡ []
  skip-nil zero = refl
  skip-nil (suc n) = refl

  skip-skip : (a b : ℕ) (xs : List E) → skip a (skip b xs) ≡ skip (b + a) xs
  skip-skip a zero xs = ap (λ j. skip j xs) (omega arith)
  skip-skip a (suc b) [] = skip-nil a ∙ sym (skip-nil (suc b + a))
  skip-skip a (suc b) (x ∷ xs) =
      skip-skip a b xs ∙ skip-cong (suc (b + a)) (suc b + a) (x ∷ xs) (omega arith)

  skip-append : (n : ℕ) (xs ys : List E) → n ≤ length xs → skip n (xs ++ ys) ≡ skip n xs ++ ys
  skip-append zero xs ys h = refl
  skip-append (suc n) [] ys h = ground arith
  skip-append (suc n) (x ∷ xs) ys h = skip-append n xs ys (omega (arith, h))

  -- the last events of a queue that was cut before are those of the whole
  last-last : (n : ℕ) (xs ys : List E) → last n (last n xs ++ ys) ≡ last n (xs ++ ys)
  last-last n xs ys =
      let k = length xs - n in
      let zs = xs ++ ys in
      ap (last n) (sym (skip-append k xs ys (omega arith)))
      ∙ skip-skip (length (skip k zs) - n) k zs
      ∙ ap (λ j. skip j zs) (omega (arith, length-skip k zs, length-append xs ys))

  last-short : (n : ℕ) (xs : List E) → length xs ≤ n → last n xs ≡ xs
  last-short n xs h = skip-cong (length xs - n) 0 xs (omega (arith, h))

  -- a delivery to a queue that is not over its limit keeps the last events, the new one last
  deliver-last :
      (maxsize : ℕ) (e : E) (events : List E)
      → 0 < maxsize
      → length events ≤ maxsize
      → deliver maxsize e events ≡ last maxsize (events ++ (e ∷ []))
  unfolding deliver put_nowait make_room drop_oldest
  deliver-last maxsize e [] pos h = ground (arith, lt→ltb 0 maxsize pos)
  deliver-last maxsize e (x ∷ events) pos h =
      let full = length-append events (e ∷ []) in
      elim (Bool-cases (ltb (length (x ∷ events)) maxsize)) [
        | inl room ↦
            let short =
              last-short maxsize (x ∷ (events ++ (e ∷ [])))
                (omega (arith, full, ltb→lt (length (x ∷ events)) maxsize room)) in
            ground (arith, room, short)
        | inr none_left ↦
            let one =
              skip-cong (length (x ∷ (events ++ (e ∷ []))) - maxsize) 1 (x ∷ (events ++ (e ∷ [])))
                (ground (arith, full)) in
            ground (arith, none_left, one)
      ]

  deliver_all-last :
      (maxsize : ℕ) (es events : List E)
      → 0 < maxsize
      → length events ≤ maxsize
      → deliver_all maxsize es events ≡ last maxsize (events ++ es)
  unfolding deliver_all
  deliver_all-last maxsize [] events pos h =
      sym (ap (last maxsize) (append-nil events) ∙ last-short maxsize events h)
  deliver_all-last maxsize (e ∷ es) events pos h =
      let step = deliver-last maxsize e events pos h in
      let fits : length (deliver maxsize e events) ≤ maxsize = omega (
        arith,
        h,
        ap length step,
        length-skip (length (events ++ (e ∷ [])) - maxsize) (events ++ (e ∷ [])),
      ) in
      deliver_all-last maxsize es (deliver maxsize e events) pos fits
      ∙ ap (λ q. last maxsize (q ++ es)) step
      ∙ last-last maxsize (events ++ (e ∷ [])) es
      ∙ ap (last maxsize) (append_assoc events (e ∷ []) es)

  -- the events of a row are published while Redis takes none
  unfoldable pub publish_all : List E → Bus E → Bus E
  publish_all [] bus = bus
  publish_all (e ∷ es) bus = publish_all es (publish false e bus)

  abbrev pub with_events : (List E → List E) → Subscriber E → Subscriber E
  with_events f s = record s { events = f s.events }

  map-delivered :
      (es : List E) (e : E) (subs : List (Subscriber E))
      → map (with_events (deliver_all subscriber_queue_max es)) (map (delivered e) subs)
        ≡ map (with_events (deliver_all subscriber_queue_max (e ∷ es))) subs
  unfolding delivered deliver_all
  map-delivered es e [] = refl
  map-delivered es e (s ∷ subs) =
      ap (λ r. with_events (deliver_all subscriber_queue_max (e ∷ es)) s ∷ r)
        (map-delivered es e subs)

  map-nothing :
      (subs : List (Subscriber E))
      → subs ≡ map (with_events (deliver_all subscriber_queue_max [])) subs
  unfolding deliver_all
  map-nothing [] = refl
  map-nothing (s ∷ subs) = ap (λ r. s ∷ r) (map-nothing subs)

  subscribers-publish_all :
      (es : List E) (bus : Bus E)
      → (publish_all es bus).subscribers
        ≡ map (with_events (deliver_all subscriber_queue_max es)) bus.subscribers
  unfolding publish_all publish deliver_local
  subscribers-publish_all [] bus = map-nothing bus.subscribers
  subscribers-publish_all (e ∷ es) bus =
      subscribers-publish_all es (publish false e bus) ∙ map-delivered es e bus.subscribers

  map-last :
      (es : List E) (subs : List (Subscriber E))
      → all (λ s. leb (length s.events) subscriber_queue_max) subs ≡ true
      → map (with_events (deliver_all subscriber_queue_max es)) subs
        ≡ map (with_events (λ q. last subscriber_queue_max (q ++ es))) subs
  map-last es [] h = refl
  map-last es (s ∷ subs) h =
      let ends = deliver_all-last subscriber_queue_max es s.events (omega arith) (ground arith) in
      ground (arith, ends, map-last es subs)

  -- However many events are published without Redis, each subscriber that reads none finds the end
  -- of all that was put in its queue, in order and at most 1000 long, if no queue was longer.
  pub publish_all-last :
      (es : List E) (bus : Bus E)
      → all (λ s. leb (length s.events) subscriber_queue_max) bus.subscribers ≡ true
      → (publish_all es bus).subscribers
        ≡ map (with_events (λ q. last subscriber_queue_max (q ++ es))) bus.subscribers
  publish_all-last es bus h = subscribers-publish_all es bus ∙ map-last es bus.subscribers h
