-- ===== src/Events/Unsubscribe.antt =====
-- `Unsubscribe` of event.go after `Subscribe`.
use aah.Prelude.{
  suc, ◌≡◌, ◌≢◌, refl, inl, inr, ap, ◌∙◌, Bool, true, [], ◌∷◌, ◌++◌, arith, Option, none, some,
  length, Option-cases, length-append,
}
use aah.Text.{Text}
use aah.Events.{
  EventCallback, EventCallbacks, EventStore, find_event, set_event, subscribe, unsubscribe,
  remove_last, subscriber_count,
}
use aah.Events.Once.{find_event-set_event, find_event-set_event_other}

module _ {F : Type 0} where
  -- the subscribers of an event, none where the event is not there
  abbrev pub subscribers_of : Option (EventCallbacks F) → EventCallbacks F
  subscribers_of none = []
  subscribers_of (some ecs) = ecs

  find_event-subscribe :
      (es : EventStore F) (event : Text) (ec : EventCallback F)
      → find_event (subscribe es event ec) event
        ≡ some (subscribers_of (find_event es event) ++ ec ∷ [])
  unfolding subscribe
  find_event-subscribe es event ec = elim (Option-cases (find_event es event)) [
    | inl h ↦ rw (subscribe, h) (find_event-set_event (set_event es event []) event (ec ∷ []))
    | inr (ecs, h) ↦ rw (subscribe, h) (find_event-set_event es event (ecs ++ ec ∷ []))
  ]

  find_event-subscribe_other :
      (es : EventStore F) (event other : Text) (ec : EventCallback F)
      → event ≢ other
      → find_event (subscribe es event ec) other ≡ find_event es other
  unfolding subscribe
  find_event-subscribe_other es event other ec ne = elim (Option-cases (find_event es event)) [
    | inl h ↦
        rw (subscribe, h)
          (find_event-set_event_other (set_event es event []) event other (ec ∷ []) ne
            ∙ find_event-set_event_other es event other [] ne)
    | inr (ecs, h) ↦
        rw (subscribe, h) (find_event-set_event_other es event other (ecs ++ ec ∷ []) ne)
  ]

  remove_last-append :
      (func_equal : F → F → Bool) (ecs : EventCallbacks F) (ec : EventCallback F) (f : F)
      → func_equal ec.callback f ≡ true
      → remove_last func_equal (ecs ++ ec ∷ []) f ≡ some ecs
  unfolding remove_last
  remove_last-append func_equal [] ec f h = rw h refl
  remove_last-append func_equal (e ∷ ecs) ec f h =
      rw (remove_last-append func_equal ecs ec f h) refl

  unsubscribe-eq :
      (func_equal : F → F → Bool) (es : EventStore F) (event : Text) (f : F)
      (ecs rest : EventCallbacks F)
      → find_event es event ≡ some ecs
      → remove_last func_equal ecs f ≡ some rest
      → unsubscribe func_equal es event f ≡ set_event es event rest
  unfolding unsubscribe
  unsubscribe-eq func_equal es event f ecs rest h k = rw (unsubscribe, h, k) refl

  subscriber_count-eq :
      (es : EventStore F) (event : Text)
      → subscriber_count es event ≡ length (subscribers_of (find_event es event))
  unfolding subscriber_count
  subscriber_count-eq es event = elim (Option-cases (find_event es event)) [
    | inl h ↦ rw (subscriber_count, h) refl
    | inr (ecs, h) ↦ rw (subscriber_count, h) refl
  ]

  -- Subscribing a callback adds one subscriber of the event. Unsubscribing the same callback removes
  -- that one and leaves the earlier ones as they were, those of the same callback too; no other event
  -- is touched by either.
  pub unsubscribe-subscribe :
      (func_equal : F → F → Bool) (es : EventStore F) (event : Text) (ec : EventCallback F) (f : F)
      → func_equal ec.callback f ≡ true
      → (subscriber_count (subscribe es event ec) event ≡ suc (subscriber_count es event))
        × (subscribers_of
              (find_event (unsubscribe func_equal (subscribe es event ec) event f) event)
            ≡ subscribers_of (find_event es event))
        × ((other : Text)
            → event ≢ other
            → find_event (unsubscribe func_equal (subscribe es event ec) event f) other
              ≡ find_event es other)
  unsubscribe-subscribe func_equal es event ec f h =
      let before = subscribers_of (find_event es event) in
      let now = find_event-subscribe es event ec in
      let gone =
        unsubscribe-eq func_equal (subscribe es event ec) event f (before ++ ec ∷ []) before now
          (remove_last-append func_equal before ec f h) in
      rw gone (
        subscriber_count-eq (subscribe es event ec) event
            ∙ ap (λ o. length (subscribers_of o)) now
            ∙ length-append before (ec ∷ [])
            ∙ omega (arith, subscriber_count-eq es event),
        ap subscribers_of (find_event-set_event (subscribe es event ec) event before),
        λ other ne.
            find_event-set_event_other (subscribe es event ec) event other before ne
            ∙ find_event-subscribe_other es event other ec ne,
      )
