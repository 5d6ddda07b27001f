-- ===== src/Events/Once.antt =====
-- The callbacks that a publication of event.go calls, with those subscribed once only.
use aah.Prelude.{
  ℕ, zero, suc, ◌≡◌, ◌≢◌, refl, ap, ◌∙◌, inl, inr, Bool, true, not, ◌&&◌, [], ◌∷◌, map, arith, some,
  if◌then◌else◌, Bool-cases,
}
use aah.Text.{Text, text_eq}
use aah.Text.Equality.{text_eq_iff, text_eq_refl}
use aah.Events.{
  EventCallback, EventCallbacks, EventStore, find_event, set_event, publish_each, publish_sync,
}

module _ {F : Type 0} where
  pub find_event-set_event :
      (es : EventStore F) (name : Text) (ecs : EventCallbacks F)
      → find_event (set_event es name ecs) name ≡ some ecs
  unfolding find_event set_event
  find_event-set_event [] name ecs = rw (text_eq_refl name) refl
  find_event-set_event ((n, old) ∷ es) name ecs = elim (Bool-cases (text_eq n name)) [
    | inl e ↦ rw (e, e) refl
    | inr e ↦ rw (e, e) (find_event-set_event es name ecs)
  ]

  pub find_event-set_event_other :
      (es : EventStore F) (name other : Text) (ecs : EventCallbacks F)
      → name ≢ other
      → find_event (set_event es name ecs) other ≡ find_event es other
  unfolding find_event set_event
  find_event-set_event_other [] name other ecs h = ground (arith, text_eq_iff name other)
  find_event-set_event_other ((n, old) ∷ es) name other ecs h = ground (
    arith,
    text_eq_iff name other,
    text_eq_iff n name,
    text_eq_iff n other,
    find_event-set_event_other es name other ecs h,
  )

  -- the subscriptions that a publication calls
  abbrev pub due : EventCallback F → Bool
  due ec = not (ec.call_once && ec.published)

  abbrev pub select : (EventCallback F → Bool) → EventCallbacks F → EventCallbacks F
  select p [] = []
  select p (ec ∷ ecs) = let rest = select p ecs in if p ec then ec ∷ rest else rest

  -- a subscription after a publication
  abbrev pub after : EventCallback F → EventCallback F
  after ec = if ec.call_once && not ec.published then record ec { published = true } else ec

  pub publish_each-calls :
      (ecs : EventCallbacks F) → (publish_each ecs).0 ≡ map EventCallback.callback (select due ecs)
  unfolding publish_each
  publish_each-calls [] = refl
  publish_each-calls (ec ∷ ecs) = ground (arith, publish_each-calls ecs)

  pub publish_each-after : (ecs : EventCallbacks F) → (publish_each ecs).1 ≡ map after ecs
  unfolding publish_each
  publish_each-after [] = refl
  publish_each-after (ec ∷ ecs) = ground (arith, publish_each-after ecs)

  -- the subscriptions without CallOnce
  abbrev pub repeats : EventCallback F → Bool
  repeats ec = not ec.call_once

  due-after : (ec : EventCallback F) → due (after ec) ≡ repeats ec
  due-after ec = ground arith

  select-due-after :
      (ecs : EventCallbacks F)
      → map EventCallback.callback (select due (map after ecs))
        ≡ map EventCallback.callback (select repeats ecs)
  select-due-after [] = refl
  select-due-after (ec ∷ ecs) = ground (arith, due-after ec, select-due-after ecs)

  select-repeats-after :
      (ecs : EventCallbacks F)
      → map EventCallback.callback (select repeats (map after ecs))
        ≡ map EventCallback.callback (select repeats ecs)
  select-repeats-after [] = refl
  select-repeats-after (ec ∷ ecs) = ground (arith, select-repeats-after ecs)

  -- the store after a number of publications of one event
  abbrev pub publish_times : ℕ → EventStore F → Text → EventStore F
  publish_times zero es name = es
  publish_times (suc n) es name = publish_times n ((publish_sync es name).1) name

  pub publish_sync-eq :
      (es : EventStore F) (name : Text) (ecs : EventCallbacks F)
      → find_event es name ≡ some ecs
      → publish_sync es name ≡ ((publish_each ecs).0, set_event es name ((publish_each ecs).1))
  unfolding publish_sync
  publish_sync-eq es name ecs h = rw (publish_sync, h) refl

  publish_sync-find :
      (es : EventStore F) (name : Text) (ecs : EventCallbacks F)
      → find_event es name ≡ some ecs
      → ((publish_sync es name).0 ≡ map EventCallback.callback (select due ecs))
        × (find_event ((publish_sync es name).1) name ≡ some (map after ecs))
  publish_sync-find es name ecs h = rw (publish_sync-eq es name ecs h) (
    publish_each-calls ecs,
    find_event-set_event es name ((publish_each ecs).1) ∙ ap some (publish_each-after ecs),
  )

  again :
      (n : ℕ) (es : EventStore F) (name : Text) (ecs : EventCallbacks F)
      → find_event es name ≡ some (map after ecs)
      → (publish_sync (publish_times n es name) name).0
        ≡ map EventCallback.callback (select repeats ecs)
  again zero es name ecs h = (publish_sync-find es name (map after ecs) h).0 ∙ select-due-after ecs
  again (suc n) es name ecs h =
      again n ((publish_sync es name).1) name (map after ecs)
        ((publish_sync-find es name (map after ecs) h).1)
      ∙ select-repeats-after ecs

  -- A publication calls, in order, the callbacks that are not once-only or were not called yet, and
  -- leaves other events alone. Any later publication, with no subscription in between, calls those
  -- that are not once-only: a once-only callback is called at most once.
  pub publish_sync-once :
      (es : EventStore F) (name : Text) (ecs : EventCallbacks F)
      → find_event es name ≡ some ecs
      → ((publish_sync es name).0 ≡ map EventCallback.callback (select due ecs))
        × ((n : ℕ)
            → (publish_sync (publish_times (suc n) es name) name).0
              ≡ map EventCallback.callback (select repeats ecs))
        × ((other : Text)
            → name ≢ other
            → find_event ((publish_sync es name).1) other ≡ find_event es other)
  publish_sync-once es name ecs h = (
    (publish_sync-find es name ecs h).0,
    λ n. again n ((publish_sync es name).1) name ecs ((publish_sync-find es name ecs h).1),
    λ other ne.
        rw (publish_sync-eq es name ecs h)
          (find_event-set_event_other es name other ((publish_each ecs).1) ne),
  )
