-- ===== src/Engine/Chain.antt =====
-- middleware.go: the chain of middlewares. A middleware either returns without a call of `m.Next`, or
-- calls it once and may do something afterwards; which of the two is its `Flow`. After
-- `invalidateMwChain` the last element links to an empty one, so that `further` is never nil.
use aah.Prelude.{
  ◌≡◌, refl, ap, ◌⊎◌, inl, inr, false, List, [], ◌∷◌, ◌++◌, if◌then◌else◌, Bool-cases,
}
use aah.Prelude.Outcome.{Outcome, returns, panics, ◌>>=◌}
use aah.Engine.Context.{Context}

pub data Flow : Type 0 where
  stops : Context → Flow
  goes_on : Context → (Context → Context) → Flow

abbrev pub goes : Context → Flow
goes ctx = goes_on ctx λ c. c

abbrev pub MiddlewareFunc : Type 0
MiddlewareFunc = Context → Outcome Flow

pub data Middleware : Type 0 where
  empty : Middleware
  middleware : MiddlewareFunc → Middleware → Middleware

unfoldable pub next : Middleware → Context → Outcome Context
next empty ctx = returns ctx
next (middleware f further) ctx =
    let called = f ctx >>= λ flow. elim flow [
      | stops c ↦ returns c
      | goes_on c after ↦ next further c >>= λ c'. returns (after c')
    ] in
    if ctx.abort then returns ctx else called

abbrev pub head_or_empty : List Middleware → Middleware
head_or_empty [] = empty
head_or_empty (m ∷ _) = m

abbrev pub linked : MiddlewareFunc → List Middleware → List Middleware
linked f ms = middleware f (head_or_empty ms) ∷ ms

-- the loops link the elements from the last one on
abbrev pub link : List MiddlewareFunc → List Middleware
link [] = []
link (f ∷ fs) = linked f (link fs)

-- `e.mwChain[cnt-1]` of an empty stack panics
unfoldable pub invalidate_mw_chain : List MiddlewareFunc → Outcome (List Middleware)
invalidate_mw_chain [] = panics
invalidate_mw_chain (f ∷ fs) = returns (link (f ∷ fs))

unfoldable pub middlewares :
    List MiddlewareFunc → List MiddlewareFunc → Outcome (List MiddlewareFunc × List Middleware)
unfolding invalidate_mw_chain
middlewares mw_stack more =
    invalidate_mw_chain (mw_stack ++ more) >>= λ chain. returns (mw_stack ++ more, chain)

-- `e.mwChain[0].Next(ctx)`
abbrev pub start : List Middleware → Context → Outcome Context
start [] ctx = panics
start (m ∷ _) ctx = next m ctx

-- A request passes the middlewares: each in order, once, calls `Next` and the context is not aborted
-- when it is entered.
pub data Passes : List MiddlewareFunc → Context → Context → Type 0 where
  through : {ctx : Context} → Passes [] ctx ctx
  by :
      {f : MiddlewareFunc} {fs : List MiddlewareFunc} {ctx c d : Context}
      (after : Context → Context)
      → ctx.abort ≡ false
      → f ctx ≡ returns (goes_on c after)
      → Passes fs c d
      → Passes (f ∷ fs) ctx d

abbrev pub chain : List MiddlewareFunc → Middleware
chain [] = empty
chain (f ∷ fs) = middleware f (chain fs)

head-link : (fs : List MiddlewareFunc) → head_or_empty (link fs) ≡ chain fs
head-link [] = refl
head-link (f ∷ fs) = ap (middleware f) (head-link fs)

start-link :
    (f : MiddlewareFunc) (fs : List MiddlewareFunc) (ctx : Context)
    → start (link (f ∷ fs)) ctx ≡ next (chain (f ∷ fs)) ctx
start-link f fs ctx = ap (λ m. next (middleware f m) ctx) (head-link fs)

flow_cases :
    (m : Outcome Flow)
    → (m ≡ panics)
      ⊎ ((c : Context) × (m ≡ returns (stops c)))
      ⊎ ((c : Context) × (after : Context → Context) × (m ≡ returns (goes_on c after)))
flow_cases panics = inl refl
flow_cases (returns (stops c)) = inr (inl (c, refl))
flow_cases (returns (goes_on c after)) = inr (inr (c, after, refl))

-- An action behind a chain of middlewares is entered only by a request that passes them all; otherwise
-- the chain gives the same result whatever the action.
pub next-Passes :
    (fs : List MiddlewareFunc) (action : MiddlewareFunc) (ctx : Context)
    → ((d : Context) × Passes fs ctx d × (d.abort ≡ false))
      ⊎ ((other : MiddlewareFunc)
          → next (chain (fs ++ action ∷ [])) ctx ≡ next (chain (fs ++ other ∷ [])) ctx)
unfolding next
next-Passes [] action ctx = elim (Bool-cases ctx.abort) [
  | inl e ↦ inr (λ other. rw e refl)
  | inr e ↦ inl (ctx, through, e)
]
next-Passes (f ∷ fs) action ctx = elim (Bool-cases ctx.abort) [
  | inl e ↦ inr (λ other. rw e refl)
  | inr e ↦ elim (flow_cases (f ctx)) [
    | inl p ↦ inr (λ other. rw (p, e) refl)
    | inr (inl (c, p)) ↦ inr (λ other. rw (p, e) refl)
    | inr (inr (c, after, p)) ↦ elim (next-Passes fs action c) [
      | inl (d, through_rest, g) ↦ inl (d, by after e p through_rest, g)
      | inr same ↦ inr (λ other. rw (p, e) (ap (λ m. m >>= λ c'. returns (after c')) (same other)))
    ]
  ]
]
