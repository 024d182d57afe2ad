-- ===== src/Interceptors/Replay.antt =====
-- What the cache of responses gives back (src/common/interceptors/cache.interceptor.ts, in the order
-- of src/app.create.ts).
use multitenancy.Prelude.{
  ℕ, String, Option, none, some, ◌≡◌, refl, sym, ap, ◌∙◌, ◌==◌, arith, eq_iff, ==_refl, Bool-cases,
  Option-cases, inl, inr,
}
use multitenancy.Exceptions.{app, framework, database, type_error}
use multitenancy.Json.{Json}
use multitenancy.Cache
use multitenancy.Cache.{CacheWrapper, get-set, has-eq-get}
use multitenancy.World.{Result, ok, err}
use multitenancy.Interceptors.{
  Server, Call, Handler, caching, remember, error_response, success_response, timeout, logging,
  printed, print, success_line, handle, report, wrap, cut_off, limit_of,
}

-- a cache that has a value answers with it
replayed :
    (call : Call) (next : Handler) (s : Server) (value : Json)
    → Cache.get call.url s.cache ≡ some value
    → caching call next s ≡ (ok value, s)
unfolding caching
replayed call next s value e = rw (has-eq-get, e) refl

remember_lem :
    (url : String) (r : Result Json × Server) (s' : Server) (value : Json)
    → remember url r ≡ (ok value, s')
    → Cache.get url s'.cache ≡ some value
unfolding remember
remember_lem url (ok v, s) s' value e =
    ground (arith, get-set {T = Json} url url v s.cache, ==_refl url)
remember_lem url (err x, s) s' value e = ground arith

remembered :
    (call : Call) (next : Handler) (s s' : Server) (value : Json)
    → caching call next s ≡ (ok value, s')
    → Cache.get call.url s'.cache ≡ some value
unfolding caching
remembered call next s s' value e = elim (Option-cases (Cache.get call.url s.cache)) [
  | inl absent ↦ remember_lem call.url (next s) s' value (rw (has-eq-get, absent) at e)
  | inr (v, known) ↦ ground (arith, has-eq-get {T = Json} call.url s.cache)
]

-- The logger changes neither what it is given nor the cache.
printed_lem :
    (call : Call) (start : ℕ) (r : Result Json × Server) (s' : Server) (value : Json)
    → printed call start r ≡ (ok value, s')
    → (r ≡ (ok value, r.1)) × (r.1.cache ≡ s'.cache)
unfolding printed
printed_lem call start (r, s) s' value e = (ap (λ p. (p.0, s)) e, ap (λ p. p.1.cache) e)

-- what stands behind the cache
abbrev answered : Call → Handler → Handler
answered call handler = error_response call (success_response call (timeout call handler))

-- An answer is in the cache once it has been given.
pub handle-remembers :
    (call : Call) (handler : Handler) (s s' : Server) (value : Json)
    → handle call handler s ≡ (ok value, s')
    → Cache.get call.url s'.cache ≡ some value
unfolding handle logging
handle-remembers call handler s s' value e =
    let inner = answered call handler in
    let (went, kept) = printed_lem call s.world.clock (caching call inner s) s' value e in
    let stored = remembered call inner s (caching call inner s).1 value went in rw (sym kept) stored

-- An answer that is in the cache is given again, and the handler is not run: a success is logged.
pub handle-replayed :
    (call : Call) (handler : Handler) (s : Server) (value : Json)
    → Cache.get call.url s.cache ≡ some value
    → handle call handler s ≡ (ok value, print (success_line call s.world.clock s.world.clock) s)
unfolding handle logging printed
handle-replayed call handler s value known =
    rw (replayed call (answered call handler) s value known) refl

-- The interceptors between the cache and the handler leave the cache alone.
report-cache : (call : Call) (r : Result Json × Server) → (report call r).1.cache ≡ r.1.cache
unfolding report
report-cache call (ok value, s) = refl
report-cache call (err (app x), s) = refl
report-cache call (err (framework status message), s) = refl
report-cache call (err (database message), s) = refl
report-cache call (err (type_error message), s) = refl

wrap-cache : (call : Call) (r : Result Json × Server) → (wrap call r).1.cache ≡ r.1.cache
unfolding wrap
wrap-cache call (ok value, s) = refl
wrap-cache call (err x, s) = refl

cut_off-cache :
    (call : Call) (limit : Option ℕ) (r : Result Json × Server)
    → (cut_off call limit r).1.cache ≡ r.1.cache
unfolding cut_off
cut_off-cache call none r = refl
cut_off-cache call (some limit) (r, s) = refl

answered-cache :
    (call : Call) (handler : Handler) (s : Server)
    → (answered call handler s).1.cache ≡ (handler s).1.cache
unfolding error_response success_response timeout
answered-cache call handler s =
    report-cache call (wrap call (cut_off call (limit_of call.request_timeout) (handler s)))
    ∙ wrap-cache call (cut_off call (limit_of call.request_timeout) (handler s))
    ∙ cut_off-cache call (limit_of call.request_timeout) (handler s)

remember-keeps :
    (own url : String) (r : Result Json × Server) (cache : CacheWrapper Json) (value : Json)
    → r.1.cache ≡ cache
    → Cache.get own cache ≡ none
    → Cache.get url cache ≡ some value
    → Cache.get url (remember own r).1.cache ≡ some value
unfolding remember
remember-keeps own url (ok v, s) cache value same absent known = elim (Bool-cases (own == url)) [
  | inl here ↦ absurd (cc ((eq_iff own url).0 here, absent, known))
  | inr other ↦ get-set own url v s.cache ∙ rw (other, same) known
]
remember-keeps own url (err x, s) cache value same absent known = rw same known

-- What is in the cache stays there, whatever a handler does that leaves the cache alone.
pub handle-keeps :
    (call : Call) (handler : Handler) (s : Server) (url : String) (value : Json)
    → (handler s).1.cache ≡ s.cache
    → Cache.get url s.cache ≡ some value
    → Cache.get url (handle call handler s).1.cache ≡ some value
unfolding handle logging printed caching
handle-keeps call handler s url value quiet known =
    elim (Option-cases (Cache.get call.url s.cache)) [
      | inl absent ↦
          rw (has-eq-get, absent)
            (remember-keeps call.url url (answered call handler s) s.cache value
              (answered-cache call handler s ∙ quiet) absent known)
      | inr (v, there) ↦ rw (has-eq-get, there) known
    ]
