-- ===== src/Events.antt =====
-- event.go: the store of event subscribers. A callback is a value that `func_equal` compares, as
-- util.FuncEqual compares the pointers of two functions; what a callback does is left out, and an
-- operation tells which callbacks it called, in that order. The locks and the log are left out.
pub mod Once
pub mod Unsubscribe
pub mod Priority
mod Tests
use aah.Prelude.{
  ℕ, zero, suc, ◌+◌, Bool, true, false, not, ◌&&◌, List, [], ◌∷◌, ◌++◌, Option, none, some,
  if◌then◌else◌, ltb, length,
}
use aah.Prelude.Integers.{ℤ, pos, negsuc}
use aah.Text.{Text, text_eq}

pub record EventCallback (F : Type 0) : Type 0 where
  pub callback : F
  pub call_once : Bool
  pub published : Bool
  pub priority : ℕ

unfoldable pub parse_priority : List ℤ → ℕ
parse_priority (pos n ∷ _) = if ltb 0 n then n else 1
parse_priority _ = 1

abbrev pub EventCallbacks : Type 0 → Type 0
EventCallbacks F = List (EventCallback F)

-- the map `subscribers`
abbrev pub EventStore : Type 0 → Type 0
EventStore F = List (Text × EventCallbacks F)

module _ {F : Type 0} where
  unfoldable pub find_event : EventStore F → Text → Option (EventCallbacks F)
  find_event [] name = none
  find_event ((n, ecs) ∷ es) name = if text_eq n name then some ecs else find_event es name

  -- `es.subscribers[name] = ecs`
  unfoldable pub set_event : EventStore F → Text → EventCallbacks F → EventStore F
  set_event [] name ecs = (name, ecs) ∷ []
  set_event ((n, old) ∷ es) name ecs =
      if text_eq n name then (n, ecs) ∷ es else (n, old) ∷ set_event es name ecs

  unfoldable pub is_event_exists : EventStore F → Text → Bool
  unfolding find_event
  is_event_exists es name = elim (find_event es name) [ none ↦ false | some _ ↦ true ]

  -- the loop of `PublishSync`, and of `Publish`, which waits for the callbacks it started: what is
  -- called, and the subscribers after it
  unfoldable pub publish_each : EventCallbacks F → List F × EventCallbacks F
  publish_each [] = ([], [])
  publish_each (ec ∷ ecs) =
      let (calls, rest) = publish_each ecs in
      if ec.call_once
      then (if not ec.published
          then (ec.callback ∷ calls, record ec { published = true } ∷ rest)
          else (calls, ec ∷ rest))
      else (ec.callback ∷ calls, ec ∷ rest)

  unfoldable pub publish_sync : EventStore F → Text → List F × EventStore F
  unfolding publish_each
  publish_sync es name = elim (find_event es name) [
    | none ↦ ([], es)
    | some ecs ↦ ((publish_each ecs).0, set_event es name ((publish_each ecs).1))
  ]

  unfoldable pub subscribe : EventStore F → Text → EventCallback F → EventStore F
  unfolding find_event set_event
  subscribe es event ec = elim (find_event es event) [
    | some ecs ↦ set_event es event (ecs ++ ec ∷ [])
    | none ↦ set_event (set_event es event []) event ([] ++ ec ∷ [])
  ]

  -- the loop of `Unsubscribe`, from the last subscriber down; `none` where none is the callback
  unfoldable pub remove_last : (F → F → Bool) → EventCallbacks F → F → Option (EventCallbacks F)
  remove_last func_equal [] callback' = none
  remove_last func_equal (ec ∷ ecs) callback' = elim (remove_last func_equal ecs callback') [
    | some rest ↦ some (ec ∷ rest)
    | none ↦ if func_equal ec.callback callback' then some ecs else none
  ]

  unfoldable pub unsubscribe : (F → F → Bool) → EventStore F → Text → F → EventStore F
  unfolding find_event set_event remove_last
  unsubscribe func_equal es event callback' = elim (find_event es event) [
    | none ↦ es
    | some ecs ↦ elim (remove_last func_equal ecs callback') [
      | none ↦ es
      | some rest ↦ set_event es event rest
    ]
  ]

  unfoldable pub subscriber_count : EventStore F → Text → ℕ
  unfolding find_event
  subscriber_count es name = elim (find_event es name) [ none ↦ 0 | some ecs ↦ length ecs ]

  -- the comparison that is given to `sort.Slice`
  abbrev pub by_priority : EventCallback F → EventCallback F → Bool
  by_priority a b = ltb a.priority b.priority

  -- `sort` is `sort.Slice` of Go's library, which may reorder what the comparison takes for equal
  unfoldable pub sort_event_subscribers :
      ((EventCallback F → EventCallback F → Bool) → EventCallbacks F → EventCallbacks F)
      → EventStore F
      → Text
      → EventStore F
  unfolding find_event set_event
  sort_event_subscribers sort es name = elim (find_event es name) [
    | none ↦ es
    | some ecs ↦ set_event es name (sort by_priority ecs)
  ]

  unfoldable pub sort_and_publish_sync :
      ((EventCallback F → EventCallback F → Bool) → EventCallbacks F → EventCallbacks F)
      → EventStore F
      → Text
      → List F × EventStore F
  unfolding sort_event_subscribers publish_sync
  sort_and_publish_sync sort es name = publish_sync (sort_event_subscribers sort es name) name
