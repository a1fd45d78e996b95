-- ===== src/Services/Async/Counted.antt =====
-- The handler of an asynchronous request is called as often as a response arrives.
use open62541pp.Prelude.{
  ℕ, ◌+◌, ◌==◌, ◌≡◌, refl, ap, sym, ◌∙◌, Bool-cases, ◌⊎◌, inl, inr, if◌then◌else◌, Option, none,
  some, List, [], ◌∷◌, All, arith,
}
use open62541pp.Status.{StatusCodes}
use open62541pp.Outcome.{Exn, ok, throw_if_bad_cases}
use open62541pp.Outcome.Catcher.{Callback, Catcher}
use open62541pp.Services.Async.{
  CompletionHandler, plain, async_transform, with_hook, Requests, initiate, Event, sends, answers,
  happen, happen_all, initial,
}
use open62541pp.Services.Async.Once.{
  times, IsTracked, initial-IsTracked, initiate-IsTracked, after, after-IsTracked, answers_held,
  answers_missing,
}

-- Every response reaches the user's handler.
abbrev Reaches : {R T : Type 0} → CompletionHandler R T → Type 0
Reaches {R} {T} handler = (r : R) → (t : T) × ((handler r).0 ≡ some t)

-- The handlers that a client makes of a user's: as it is, behind a transform, behind hooks. No
-- transform and no hook throws.
pub data IsUnfailing {R : Type 0} : (T : Type 0) → CompletionHandler R T → Type 1 where
  direct : (handler : Callback R) → IsUnfailing R (plain handler)
  transformed :
      {T : Type 0} (handler : Callback T) (transform : R → Exn ⊎ T)
      → ((r : R) → (t : T) × (transform r ≡ inr t))
      → IsUnfailing T (async_transform handler transform)
  hooked :
      {T : Type 0} {inner : CompletionHandler R T} (hook : Callback R)
      → ((r : R) → hook r ≡ none)
      → IsUnfailing T inner
      → IsUnfailing T (with_hook inner hook)

IsUnfailing-Reaches :
    {R T : Type 0} {handler : CompletionHandler R T} → IsUnfailing T handler → Reaches handler
unfolding async_transform with_hook
IsUnfailing-Reaches (direct handler) r = (r, refl)
IsUnfailing-Reaches (transformed handler transform returns) r =
    let (t, same) = returns r in (t, rw (async_transform, same) refl)
IsUnfailing-Reaches (hooked hook silent inner) r =
    let (t, same) = IsUnfailing-Reaches inner r in (t, rw (with_hook, silent r) same)

module _ ⦃c : StatusCodes⦄ {R T : Type 0} where
  -- How many responses arrive for the request with the context at `a`, null pointers aside.
  abbrev pub responses : ℕ → List (Event R T) → ℕ
  responses a [] = 0
  responses a (sends handler status ∷ events) = responses a events
  responses a (answers b none ∷ events) = responses a events
  responses a (answers b (some r) ∷ events) = (if a == b then 1 else 0) + responses a events

  abbrev pub SendsUnfailing : Event R T → Type 1
  SendsUnfailing (sends handler status) = IsUnfailing T handler
  SendsUnfailing (answers a response) = Unit

  abbrev AllReach : Requests R T → Type 0
  AllReach s =
      (a : ℕ) (handler : CompletionHandler R T) → s.contexts a ≡ some handler → Reaches handler

  injected : (h k : CompletionHandler R T) → some h ≡ some k → h ≡ k
  injected h k e = cc

  initiate-AllReach :
      (handler : CompletionHandler R T) (status : ℕ) (s : Requests R T)
      → Reaches handler
      → AllReach s
      → AllReach (initiate handler status s)
  unfolding initiate
  initiate-AllReach handler status s reaches all = elim (throw_if_bad_cases status) [
    | inl (bad, e, thrown, code) ↦ rw (initiate, thrown) all
    | inr (fine, returned) ↦
        rw (initiate, returned)
          (λ a h at. elim (Bool-cases (s.next_address == a)) [
            | inl new ↦ rw (← injected handler h (ground (arith, at, new))) reaches
            | inr old ↦ all a h (ground (arith, at, old))
          ])
  ]

  initiate-handled :
      (handler : CompletionHandler R T) (status : ℕ) (s : Requests R T)
      → (initiate handler status s).handled ≡ s.handled
  unfolding initiate
  initiate-handled handler status s = elim (throw_if_bad_cases status) [
    | inl (bad, e, thrown, code) ↦ rw (initiate, thrown) refl
    | inr (fine, returned) ↦ rw (initiate, returned) refl
  ]

  after-AllReach :
      (a : ℕ) (came : Option T) (k : Catcher) (s : Requests R T)
      → AllReach s
      → AllReach (after a came k s)
  after-AllReach a came k s all b handler at = all b handler (elim (Bool-cases (a == b)) [
    | inl here ↦ absurd (ground (arith, at, here))
    | inr apart ↦ ground (arith, at, apart)
  ])

  happen_all-times :
      (events : List (Event R T)) (s s' : Requests R T)
      → IsTracked s
      → AllReach s
      → All SendsUnfailing events
      → happen_all events s ≡ some (ok s')
      → (a : ℕ) → times a s'.handled ≡ times a s.handled + responses a events
  unfolding happen_all happen initiate
  happen_all-times [] s s' tracked all reach e a = rw (← returned) (omega arith)
    where
      returned : s ≡ s'
      returned = cc
  happen_all-times (sends handler status ∷ events) s s' tracked all (unfailing, reach) e a = omega (
    arith,
    ap (times a) (initiate-handled handler status s),
    happen_all-times events (initiate handler status s) s'
        (initiate-IsTracked handler status s tracked)
        (initiate-AllReach handler status s (IsUnfailing-Reaches unfailing) all) reach e a,
  )
  happen_all-times (answers b none ∷ events) s s' tracked all (_, reach) e a =
      elim (Bool-cases (s.userdata b)) [
        | inr missing ↦ absurd (cc (answers_missing b none s events missing, e))
        | inl held ↦
            let (handler, at) = tracked.held b held in
            let (k, same) = answers_held b none handler s events held at in
            happen_all-times events (after b none k s) s' (after-IsTracked b none k s tracked held)
              (after-AllReach b none k s all) reach (sym same ∙ e) a
      ]
  happen_all-times (answers b (some r) ∷ events) s s' tracked all (_, reach) e a =
      elim (Bool-cases (s.userdata b)) [
        | inr missing ↦ absurd (cc (answers_missing b (some r) s events missing, e))
        | inl held ↦
            let (handler, at) = tracked.held b held in
            let (k, same) = answers_held b (some r) handler s events held at in
            let (t, came) = all b handler at r in
            let rest =
              happen_all-times events (after b (some t) k s) s'
                (after-IsTracked b (some t) k s tracked held) (after-AllReach b (some t) k s all)
                reach (sym (rw came at same) ∙ e) a in
            ground (arith, rest)
      ]

  -- Whatever a client sends, the C library accepts and answers, in whatever order: if no
  -- transform of a response and no hook throws, the user's handler of a request is called as often
  -- as a response arrives for it, null pointers aside.
  pub happen_all-responses :
      (events : List (Event R T)) (s : Requests R T)
      → All SendsUnfailing events
      → happen_all events initial ≡ some (ok s)
      → (a : ℕ) → times a s.handled ≡ responses a events
  happen_all-responses events s reach e a = omega (
    arith,
    happen_all-times events initial s initial-IsTracked (λ a handler at. absurd (cc at)) reach e a,
  )
