-- ===== src/Interceptors/Inside.antt =====
-- What the interceptors of src/common/interceptors see of the handler inside them.
use multitenancy.Prelude.{◌≡◌, refl, ltb, Option-cases, Bool-cases, inl, inr}
use multitenancy.Exceptions.{Exception}
use multitenancy.World.{err}
use multitenancy.Interceptors.{
  Server, Call, Handler, handle, logging, caching, error_response, success_response, timeout,
  cut_off, limit_of, timed_out,
}

-- What the interceptors do depends on what the handler does in this state.
pub handle-ext :
    (call : Call) (handler other : Handler) (s : Server)
    → handler s ≡ other s
    → handle call handler s ≡ handle call other s
unfolding handle logging caching error_response success_response timeout
handle-ext call handler other s e = rw e refl

-- A handler that fails fails within its limit or is cut off by it.
pub timeout-fails :
    (call : Call) (handler : Handler) (s : Server) (x : Exception)
    → handler s ≡ (err x, s)
    → (y : Exception) × (timeout call handler s ≡ (err y, s))
unfolding timeout cut_off
timeout-fails call handler s x e = elim (Option-cases (limit_of call.request_timeout)) [
  | inl unlimited ↦ (x, rw (e, unlimited) refl)
  | inr (limit, set) ↦ elim (Bool-cases (ltb limit call.duration)) [
    | inl late ↦ (timed_out limit, rw (e, set, late) refl)
    | inr early ↦ (x, rw (e, set, early) refl)
  ]
]
