-- ===== src/Events/Tests.antt =====
-- Runs of event.go on small inputs, and the theorems about it at such inputs. Callbacks are numbers.
use mathlib.Core.List.{Permᴰ}
use mathlib.Core.List.Permᴰ
use aah.Prelude.{ℕ, suc, ◌==◌, ◌≡◌, ◌≢◌, refl, Bool, true, false, [], ◌∷◌, map}
use aah.Text.{Text, codes}
use aah.Prelude.Integers.{pos, negsuc}
use aah.Events.{
  EventCallback, EventCallbacks, EventStore, parse_priority, find_event, publish_sync, subscribe,
  unsubscribe, subscriber_count, sort_and_publish_sync,
}
use aah.Events.Once.{due, select, repeats, publish_times, publish_sync-once}
use aah.Events.Unsubscribe.{subscribers_of, unsubscribe-subscribe}
use aah.Events.Priority.{Ascending, sort_and_publish_sync_lem}

abbrev once : EventCallback ℕ
once = record { callback = 7; call_once = true; published = false; priority = 1 }

abbrev always : EventCallback ℕ
always = record { callback = 8; call_once = false; published = false; priority = 2 }

abbrev started : EventStore ℕ
started = (codes "OnStart", once ∷ always ∷ []) ∷ []

abbrev same_number : ℕ → ℕ → Bool
same_number a b = a == b

abbrev keep : (EventCallback ℕ → EventCallback ℕ → Bool) → EventCallbacks ℕ → EventCallbacks ℕ
keep less ecs = ecs

default_priority :
    (parse_priority [] ≡ 1)
    × (parse_priority (pos 0 ∷ []) ≡ 1)
    × (parse_priority (negsuc 4 ∷ []) ≡ 1)
unfolding parse_priority
default_priority = (refl, refl, refl)

publish_twice :
    (publish_sync ((publish_sync started (codes "OnStart")).1) (codes "OnStart")).0 ≡ 8 ∷ []
unfolding publish_sync find_event aah.Text.text_eq aah.Events.set_event
publish_twice = refl

publish_sync-once_example :
    ((publish_sync started (codes "OnStart")).0
      ≡ map EventCallback.callback (select due (once ∷ always ∷ [])))
    × ((n : ℕ)
        → (publish_sync (publish_times (suc n) started (codes "OnStart")) (codes "OnStart")).0
          ≡ map EventCallback.callback (select repeats (once ∷ always ∷ [])))
    × ((other : Text)
        → codes "OnStart" ≢ other
        → find_event ((publish_sync started (codes "OnStart")).1) other ≡ find_event started other)
unfolding find_event aah.Text.text_eq
publish_sync-once_example = publish_sync-once started (codes "OnStart") (once ∷ always ∷ []) refl

unsubscribe-subscribe_example :
    (subscriber_count (subscribe started (codes "OnStart") once) (codes "OnStart")
      ≡ suc (subscriber_count started (codes "OnStart")))
    × (subscribers_of (
          find_event
            (unsubscribe same_number (subscribe started (codes "OnStart") once) (codes "OnStart") 7)
            (codes "OnStart"))
        ≡ subscribers_of (find_event started (codes "OnStart")))
    × ((other : Text)
        → codes "OnStart" ≢ other
        → find_event
            (unsubscribe same_number (subscribe started (codes "OnStart") once) (codes "OnStart") 7)
            other
          ≡ find_event started other)
unsubscribe-subscribe_example =
    unsubscribe-subscribe same_number started (codes "OnStart") once 7 refl

sort_and_publish_sync_example :
    (called : EventCallbacks ℕ) × ((sort_and_publish_sync keep started (codes "OnStart")).0
      ≡ map EventCallback.callback called)
    × Ascending called
    × Permᴰ called (select due (once ∷ always ∷ []))
unfolding find_event aah.Text.text_eq
sort_and_publish_sync_example =
    sort_and_publish_sync_lem keep started (codes "OnStart") (once ∷ always ∷ []) refl
      ((refl, tt), (tt, tt)) (Permᴰ.refl (once ∷ always ∷ []))
