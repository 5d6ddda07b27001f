-- ===== src/Events/Priority.antt =====
-- The order in which `sortAndPublishSync` of event.go calls.
use mathlib.Core.List.{Permᴰ}
use mathlib.Core.List.Permᴰ
use aah.Prelude.{
  ◌≤◌, ◌≡◌, refl, ap, if◌then◌else◌, false, Bool, true, [], ◌∷◌, map, arith, some, All,
}
use aah.Text.{Text}
use aah.Events.{
  by_priority, EventCallback, EventCallbacks, EventStore, find_event, set_event,
  sort_event_subscribers, sort_and_publish_sync,
}
use aah.Events.Once.{find_event-set_event, due, select, publish_sync-once}

module _ {F : Type 0} where
  -- every subscription is at most as late as those after it
  abbrev pub Ascending : EventCallbacks F → Type 0
  Ascending [] = Unit
  Ascending (ec ∷ ecs) = All (λ later. ec.priority ≤ later.priority) ecs × Ascending ecs

  All-select :
      (P : EventCallback F → Type 0) (p : EventCallback F → Bool) (ecs : EventCallbacks F)
      → All P ecs
      → All P (select p ecs)
  All-select P p [] h = tt
  All-select P p (ec ∷ ecs) (h, hs) = ground (arith, All-select P p ecs hs)

  Ascending-select :
      (p : EventCallback F → Bool) (ecs : EventCallbacks F)
      → Ascending ecs
      → Ascending (select p ecs)
  Ascending-select p [] h = tt
  Ascending-select p (ec ∷ ecs) (h, hs) =
      ground (
        arith,
        Ascending-select p ecs hs,
        All-select (λ later. ec.priority ≤ later.priority) p ecs h,
      )

  -- what `sort.Slice` gives: nothing comes before what is less than it
  abbrev pub SortedBy : (EventCallback F → EventCallback F → Bool) → EventCallbacks F → Type 0
  SortedBy less [] = Unit
  SortedBy less (ec ∷ ecs) = All (λ later. less later ec ≡ false) ecs × SortedBy less ecs

  SortedBy-Ascending : (ecs : EventCallbacks F) → SortedBy by_priority ecs → Ascending ecs
  SortedBy-Ascending [] h = tt
  SortedBy-Ascending (ec ∷ ecs) (h, hs) = (later_than ecs h, SortedBy-Ascending ecs hs)
    where
      later_than :
          (later : EventCallbacks F)
          → All (λ e. by_priority e ec ≡ false) later
          → All (λ e. ec.priority ≤ e.priority) later
      later_than [] k = tt
      later_than (e ∷ later) (k, ks) = (ground arith, later_than later ks)

  kept :
      (b c : Bool) {x y : EventCallback F} {xs ys : EventCallbacks F}
      → b ≡ c
      → x ≡ y
      → Permᴰ xs ys
      → Permᴰ (if b then x ∷ xs else xs) (if c then y ∷ ys else ys)
  kept true true h e r = Permᴰ.cons e r
  kept false false h e r = r
  kept true false h e r = absurd (cc h)
  kept false true h e r = absurd (cc h)

  swapped :
      (b c b' c' : Bool) {x y x' y' : EventCallback F} (xs : EventCallbacks F)
      → b ≡ c'
      → c ≡ b'
      → x ≡ y'
      → y ≡ x'
      → Permᴰ
          (if b then x ∷ (if c then y ∷ xs else xs) else (if c then y ∷ xs else xs))
          (if b' then x' ∷ (if c' then y' ∷ xs else xs) else (if c' then y' ∷ xs else xs))
  swapped true true true true xs h k e f = Permᴰ.swap e f
  swapped true false false true xs h k e f = Permᴰ.cons e (Permᴰ.refl xs)
  swapped false true true false xs h k e f = Permᴰ.cons f (Permᴰ.refl xs)
  swapped false false false false xs h k e f = Permᴰ.refl xs
  swapped true c b' false xs h k e f = absurd (cc h)
  swapped false c b' true xs h k e f = absurd (cc h)
  swapped b true false c' xs h k e f = absurd (cc k)
  swapped b false true c' xs h k e f = absurd (cc k)

  Permᴰ-select :
      (p : EventCallback F → Bool) (xs ys : EventCallbacks F)
      → Permᴰ xs ys
      → Permᴰ (select p xs) (select p ys)
  Permᴰ-select p [] [] Permᴰ.nil = Permᴰ.nil
  Permᴰ-select p (x ∷ xs) (y ∷ ys) (Permᴰ.cons e h) =
      kept (p x) (p y) (ap p e) e (Permᴰ-select p xs ys h)
  Permᴰ-select p xs ys (Permᴰ.swap {a = x} {b = y} {a' = x'} {b' = y'} {l = l} e f) =
      swapped (p x) (p y) (p x') (p y') (select p l) (ap p e) (ap p f) e f
  Permᴰ-select p xs ys (Permᴰ.trans h k) =
      Permᴰ.trans (Permᴰ-select p xs _ h) (Permᴰ-select p _ ys k)

  sort_event_subscribers-eq :
      (sort : (EventCallback F → EventCallback F → Bool) → EventCallbacks F → EventCallbacks F)
      (es : EventStore F) (name : Text) (ecs : EventCallbacks F)
      → find_event es name ≡ some ecs
      → sort_event_subscribers sort es name ≡ set_event es name (sort by_priority ecs)
  unfolding sort_event_subscribers
  sort_event_subscribers-eq sort es name ecs h = rw (sort_event_subscribers, h) refl

  -- Where `sort.Slice`, given the comparison of the code, returns the same subscriptions, as many times
  -- each, and none before one that the comparison has as less, what is called are the subscriptions that
  -- are due, as many times each and no others, each after those of a lower priority.
  pub sort_and_publish_sync_lem :
      (sort : (EventCallback F → EventCallback F → Bool) → EventCallbacks F → EventCallbacks F)
      (es : EventStore F) (name : Text) (ecs : EventCallbacks F)
      → find_event es name ≡ some ecs
      → SortedBy by_priority (sort by_priority ecs)
      → Permᴰ (sort by_priority ecs) ecs
      → (called : EventCallbacks F) × ((sort_and_publish_sync sort es name).0
          ≡ map EventCallback.callback called)
        × Ascending called
        × Permᴰ called (select due ecs)
  unfolding sort_and_publish_sync
  sort_and_publish_sync_lem sort es name ecs h sorted same =
      let out = sort by_priority ecs in
      rw (sort_event_subscribers-eq sort es name ecs h) (
        select due out,
        (publish_sync-once (set_event es name out) name out (find_event-set_event es name out)).0,
        Ascending-select due out (SortedBy-Ascending out sorted),
        Permᴰ-select due out ecs same,
      )
