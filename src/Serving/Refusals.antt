-- ===== src/Serving/Refusals.antt =====
-- Requests that do not get to their handler (src/app.module.ts, src/auth/guard/jwt.guard.ts, and the
-- pipe inside the interceptors of src/app.create.ts).
use multitenancy.Prelude.{
  String, Bool, true, false, not, Option, none, some, List, ◌≡◌, refl, sym, ◌∙◌, ◌&&◌, ◌||◌,
  Option-cases, inl, inr, if◌then◌else◌, arith,
}
use multitenancy.Exceptions.{Exception, framework}
use multitenancy.Json.{Json, Fields}
use multitenancy.Cache
use multitenancy.Cache.{has-eq-get}
use multitenancy.World.{World, Result, ok, err, Action, continue, pure, raise, ◌>>=◌, ◌>>◌}
use multitenancy.World.Evolves.{Preorder, Evolves, Evolves-bind}
use multitenancy.Platform.{Platform, TokenPayload}
use multitenancy.Requests.Evolves.{use_tenant-Evolves}
use multitenancy.Requests.{Request, use_tenant, handle_request}
use multitenancy.Interceptors.{Server, Call}
use multitenancy.Interceptors.Inside.{handle-ext, timeout-fails}
use multitenancy.Interceptors.Outcomes.{is_error, handle_fails}
use multitenancy.Bodies.{Property, Pipe, validation_options}
use multitenancy.Serving.{
  Route, guarded, class_of, Incoming, guard, admitted, on_world, admit, validated, checked, entered,
  serve,
}

abbrev is_refusal : {A : Type 0} → Result A → Bool
is_refusal (ok a) = false
is_refusal (err x) = true

-- Nothing that is stored has changed: the time and the number of statements may have.
abbrev pub Untouched : World → World → Type 0
Untouched u v =
    (v.public ≡ u.public)
    × (v.schemas ≡ u.schemas)
    × (v.connections ≡ u.connections)
    × (v.redis ≡ u.redis)

Untouched-order : Preorder Untouched
Untouched-order = record {
  same = λ w. (refl, refl, refl, refl);
  after = λ u v w h k. (k.0 ∙ h.0, k.1 ∙ h.1, k.2 ∙ h.2, k.3 ∙ h.3);
}

guard_of :
    (asks : Bool) (verdict : Result TokenPayload) (req : Request) (w : World)
    → Untouched w ((if asks then admitted req verdict else pure req) w).1
unfolding admitted pure raise
guard_of true (ok user) req w = (refl, refl, refl, refl)
guard_of true (err x) req w = (refl, refl, refl, refl)
guard_of false verdict req w = (refl, refl, refl, refl)

admit-Untouched :
    (sys : Platform) (production : Bool) (route : Route) (inc : Incoming)
    → Evolves Untouched (admit sys production route inc)
unfolding admit guard
admit-Untouched sys production route inc =
    Evolves-bind Untouched-order _ _
      (use_tenant-Evolves sys Untouched-order (λ w. (refl, refl, refl, refl)) production
        inc.request)
      λ req. record {
        at = guard_of (guarded route) (handle_request inc.error inc.user inc.info) req;
      }

module _ (pipe : Pipe) (complaint : List Property → Fields → String) where
  abbrev pub accepted : Option (List Property) → Fields → Bool
  accepted none body = true
  accepted (some class) body = pipe.accepts validation_options class body

  -- The guard finds no user behind the token, or the pipe refuses the body and the cache of responses
  -- has no answer for the url.
  abbrev pub turned_away : Route → Call → Incoming → Server → Bool
  turned_away route call inc s =
      (guarded route && is_refusal (handle_request inc.error inc.user inc.info))
      || (not (Cache.has call.url s.cache) && not (accepted (class_of route) inc.body))

  class_fails :
      (class : Option (List Property)) (body : Fields) (s : Server)
      → accepted class body ≡ false
      → (x : Exception) × ((k : Action Json)
          → on_world (validated pipe complaint class body >> k) s ≡ (err x, s))
  unfolding validated ◌>>=◌
  class_fails none body s h = cc h
  class_fails (some class) body s h = (framework 400 (complaint class body), λ k. rw h refl)

  pipe_fails :
      (route : Route) (inc : Incoming) (handler : Request → Action Json) (req : Request)
      (s : Server)
      → accepted (class_of route) inc.body ≡ false
      → (x : Exception) × ((other : Request → Action Json)
          → checked pipe complaint route inc other req s ≡ (err x, s))
  pipe_fails route inc handler req s h =
      let (x, fails) = class_fails (class_of route) inc.body s h in (x, λ other. fails (other req))

  -- what becomes of the request behind the guard, for two handlers
  abbrev Alike : Server → Result Json × Server → Result Json × Server → Type 0
  Alike s (r, v) other =
      (is_error r ≡ true) × Untouched s.world v.world × (v.cache ≡ s.cache) × (other ≡ (r, v))

  entered-Alike :
      (route : Route) (call : Call) (inc : Incoming) (handler other : Request → Action Json)
      (r : Result Request) (s t : Server)
      → Untouched s.world t.world
      → t.cache ≡ s.cache
      → (is_refusal r ≡ false
          → (Cache.get call.url t.cache ≡ none) × (accepted (class_of route) inc.body ≡ false))
      → Alike s
          (entered pipe complaint route call inc handler (r, t))
          (entered pipe complaint route call inc other (r, t))
  entered-Alike route call inc handler other (err x) s t kept same stops = (refl, kept, same, refl)
  entered-Alike route call inc handler other (ok req) s t kept same stops =
      let (absent, refused) = stops refl in
      let (x, fails) = pipe_fails route inc handler req t refused in
      let h = checked pipe complaint route inc handler req in
      let k = checked pipe complaint route inc other req in
      let (y, failed) = timeout-fails call h t x (fails handler) in
      let (wrong, cached, world, _, _) = handle_fails call h t t y absent failed in
      (
        wrong,
        rw world kept,
        cached ∙ same,
        handle-ext call k h t (fails other ∙ sym (fails handler)),
      )

  guard_refuses :
      (asks : Bool) (verdict : Result TokenPayload) (req : Request) (w : World)
      → (asks && is_refusal verdict) ≡ true
      → is_refusal ((if asks then admitted req verdict else pure req) w).0 ≡ true
  unfolding admitted pure raise
  guard_refuses true (err x) req w h = refl
  guard_refuses true (ok user) req w h = cc h
  guard_refuses false verdict req w h = cc h

  refused_on :
      (r : Result Request) (w : World) (route : Route) (inc : Incoming)
      → (guarded route && is_refusal (handle_request inc.error inc.user inc.info)) ≡ true
      → is_refusal (continue r (guard route inc) w).0 ≡ true
  unfolding continue guard
  refused_on (err x) w route inc h = refl
  refused_on (ok req) w route inc h =
      guard_refuses (guarded route) (handle_request inc.error inc.user inc.info) req w h

  admit_refuses :
      (sys : Platform) (production : Bool) (route : Route) (inc : Incoming) (w : World)
      → (guarded route && is_refusal (handle_request inc.error inc.user inc.info)) ≡ true
      → is_refusal (admit sys production route inc w).0 ≡ true
  unfolding admit ◌>>=◌
  admit_refuses sys production route inc w h =
      let (r, v) = use_tenant sys production inc.request w in refused_on r v route inc h

  stops_because :
      (a b c d : Bool)
      → (a || (not b && not c)) ≡ true
      → (a ≡ true → d ≡ true)
      → d ≡ false
      → (b ≡ false) × (c ≡ false)
  stops_because a b c d h k e = ground (arith, k)

  absent_of :
      (url : String) (s : Server) → Cache.has url s.cache ≡ false → Cache.get url s.cache ≡ none
  absent_of url s h = elim (Option-cases (Cache.get url s.cache)) [
    | inl absent ↦ absent
    | inr (v, known) ↦ absurd (cc (rw (has-eq-get, known) at h))
  ]

  -- On every route, where the guard stands and finds no user behind the token, or the pipe refuses the
  -- body and the cache of responses has no answer for the url: the caller gets an error, the tables, the
  -- connections, Redis and the cache of responses are as before, and the handler is not run, since
  -- any other handler makes no difference. That holds of the acceptance of an invitation too, which
  -- is behind the guard.
  pub serve_refuses :
      (sys : Platform) (production : Bool) (route : Route) (call : Call) (inc : Incoming)
      (handler other : Request → Action Json) (s : Server)
      → turned_away route call inc s ≡ true
      → let answer = serve pipe complaint sys production route call inc handler s in
        (is_error answer.0 ≡ true)
        × Untouched s.world answer.1.world
        × (answer.1.cache ≡ s.cache)
        × (serve pipe complaint sys production route call inc other s ≡ answer)
  unfolding serve
  serve_refuses sys production route call inc handler other s h =
      let (r, t) = on_world (admit sys production route inc) s in
      entered-Alike route call inc handler other r s t
        ((admit-Untouched sys production route inc).at s.world) refl
        λ goes.
          let (missing, refused) =
            stops_because _ (Cache.has call.url s.cache) (accepted (class_of route) inc.body)
              (is_refusal r) h (admit_refuses sys production route inc s.world) goes in
          (absent_of call.url s missing, refused)
