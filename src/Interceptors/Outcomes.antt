-- ===== src/Interceptors/Outcomes.antt =====
-- What a request comes to when the cache has no answer for it: the envelope of a success, the one
-- response of an error, and the limit on time (src/common/interceptors).
use multitenancy.Prelude.{
  ℕ, ◌+◌, ◌<◌, String, Bool, true, false, Option, none, some, List, [], ◌∷◌, ◌≡◌, refl, ◌∙◌,
  ==_refl, length, ltb, arith, Option-cases, inl, inr,
}
use multitenancy.Prelude.{◌++◌ as append}
use multitenancy.Json.{Json, bool, str, obj, Fields, member}
use multitenancy.Exceptions.{Exception, app, framework, database, type_error}
use multitenancy.Cache
use multitenancy.Cache.{has-eq-get, get-set}
use multitenancy.World.{Result, ok, err}
use multitenancy.Interceptors.{
  Server, Call, Handler, or_internal, caching, remember, error_response, report, success_response,
  wrap, timeout, cut_off, limit_of, handle, logging, printed, success_line, timed_out, paginated,
  envelope,
}

-- the fields of an answer
abbrev pub fields_of : Json → Fields
fields_of (obj fs) = fs
fields_of _ = Fields.end

abbrev pub content_of : Json → Option (Json × Json) → Json
content_of value none = value
content_of value (some (content, meta)) = content

abbrev pub meta_of : Option (Json × Json) → Option Json
meta_of none = none
meta_of (some (content, meta)) = some meta

-- The envelope of a success is an object marked as one, whose "data" is the page's where the value is
-- an object with both "data" and "meta", and the value itself otherwise; it has a "meta" only in the
-- first case.
pub envelope_lem :
    (call : Call) (now : ℕ) (value : Json)
    → let fs = fields_of (envelope call now value) in
      (member "success" fs ≡ some (bool true))
      × (member "path" fs ≡ some (str call.url))
      × (member "data" fs ≡ some (content_of value (paginated value)))
      × (member "meta" fs ≡ meta_of (paginated value))
unfolding envelope member
envelope_lem call now value = elim (Option-cases (paginated value)) [
  | inl plain ↦ rw (envelope, plain) (refl, refl, refl, refl)
  | inr (page, paged) ↦ rw (envelope, paged) (refl, refl, refl, refl)
]

-- Whether an error is an `HttpException`.
abbrev is_http : Exception → Bool
is_http (app x) = true
is_http (framework status message) = true
is_http _ = false

abbrev one_if : Bool → ℕ
one_if true = 1
one_if false = 0

length-append_one {ℓ} :
    {A : Type ℓ} (rs : List A) (r : A) → length (append rs (r ∷ [])) ≡ length rs + 1
length-append_one [] r = refl
length-append_one (x ∷ rs) r = ground (arith, length-append_one rs r)

abbrev pub is_error : Result Json → Bool
is_error (ok value) = false
is_error (err x) = true

abbrev pub message_of : Exception → String
message_of (app x) = x.message
message_of (framework status message) = message
message_of (database message) = message
message_of (type_error message) = message

-- `v` is the server after an error `x` of a handler that left `s`.
abbrev pub Reported : Exception → Server → Result Json × Server → Type 0
Reported x s (r, v) =
    (is_error r ≡ true)
    × (v.cache ≡ s.cache)
    × (v.world ≡ s.world)
    × (length v.responses ≡ length s.responses + one_if (is_http x))
    × (length v.log ≡ length s.log + 1)

report-Reported :
    (call : Call) (x : Exception) (s : Server)
    → (start : ℕ)
    → Reported x s (printed call start (remember call.url (report call (wrap call (err x, s)))))
unfolding remember report wrap printed
report-Reported call (app e) s start =
    (refl, refl, refl, length-append_one s.responses _, length-append_one s.log _)
report-Reported call (framework status message) s start =
    (refl, refl, refl, length-append_one s.responses _, length-append_one s.log _)
report-Reported call (database message) s start =
    (refl, refl, refl, omega arith, length-append_one s.log _)
report-Reported call (type_error message) s start =
    (refl, refl, refl, omega arith, length-append_one s.log _)

-- Where the cache has no answer and the handler, within its limit or cut off by it, ends in an error:
-- the interceptors end in an error, the error is not cached, what the handler did stays, one line is
-- logged, and the interceptors themselves send exactly one response if the error is an
-- `HttpException` and none otherwise: what the framework answers to the error is not counted.
pub handle_fails :
    (call : Call) (handler : Handler) (s s' : Server) (x : Exception)
    → Cache.get call.url s.cache ≡ none
    → timeout call handler s ≡ (err x, s')
    → Reported x s' (handle call handler s)
unfolding handle logging caching error_response success_response
handle_fails call handler s s' x absent failed =
    rw (has-eq-get, absent, failed) (report-Reported call x s' s.world.clock)

-- Where the cache has no answer and the handler takes longer than the limit in force, the caller gets
-- an error, one response with status 408 is sent, nothing is cached, and the handler's effects on the
-- state stay, as it is not stopped.
pub handle_times_out :
    (call : Call) (handler : Handler) (s : Server) (limit : ℕ)
    → Cache.get call.url s.cache ≡ none
    → limit_of call.request_timeout ≡ some limit
    → limit < call.duration
    → let (r, v) = handle call handler s in
      let done = (handler s).1 in
      (is_error r ≡ true)
      × (v.world ≡ done.world)
      × (v.cache ≡ done.cache)
      × (v.responses
          ≡ append done.responses (
              record {
                status_code = 408;
                message = or_internal (message_of (timed_out limit));
                path = call.url;
              }
              ∷ []))
unfolding handle logging printed caching remember error_response report success_response wrap
    timeout cut_off timed_out
handle_times_out call handler s limit absent set late =
    let over : ltb limit call.duration ≡ true = ground arith in
    rw (has-eq-get, absent, set, cut_off, over) (refl, refl, refl, refl)

-- Where the cache has no answer and the handler gives a value within its limit, the caller gets the
-- envelope of that value, which the cache keeps for the url, no response is sent by the
-- interceptors, and the request is logged as a success with the time that it took; the handler's
-- effects on the state stay.
pub handle_succeeds :
    (call : Call) (handler : Handler) (s s' : Server) (value : Json)
    → Cache.get call.url s.cache ≡ none
    → timeout call handler s ≡ (ok value, s')
    → let (r, v) = handle call handler s in
      (r ≡ ok (envelope call s'.world.clock value))
      × (Cache.get call.url v.cache ≡ some (envelope call s'.world.clock value))
      × (v.world ≡ s'.world)
      × (v.responses ≡ s'.responses)
      × (v.log ≡ append s'.log (success_line call s.world.clock s'.world.clock ∷ []))
unfolding handle logging printed caching remember error_response report success_response wrap
handle_succeeds call handler s s' value absent went =
    rw (has-eq-get, absent, went)
      (
        refl,
        get-set call.url call.url (envelope call s'.world.clock value) s'.cache
            ∙ rw (==_refl call.url) refl,
        refl,
        refl,
        refl,
      )
