-- ===== src/Http/Filter/Masked.antt =====
-- What an answer keeps from the client.
use payment_microservice.Prelude.{String, ℕ, true, false, ◌==◌, ==_refl, ◌≡◌, refl, arith}
use payment_microservice.Http.Filter.{
  Exception, FilteredRequest, catch_exception, answer, unexpected,
}

-- No branch of the filter is about the exception: it is neither of NestJS, nor one of the two errors
-- of Prisma that tell of a unique key or a missing row.
abbrev pub IsInternal : Exception → Type 0
IsInternal (Exception.http status resp message) = ⊥
IsInternal (Exception.prisma code message) =
    ((code == "P2002") ≡ false) × ((code == "P2025") ≡ false)
IsInternal (Exception.error message) = Unit {0}
IsInternal Exception.other_value = Unit {0}

answer-IsInternal : (e : Exception) → IsInternal e → answer true e ≡ unexpected
answer-IsInternal (Exception.http status resp message) h = absurd h
answer-IsInternal (Exception.prisma code message) h = ground arith
answer-IsInternal (Exception.error message) h = refl
answer-IsInternal Exception.other_value h = refl

-- In production a client learns nothing of an internal exception: whatever was thrown, with whatever
-- message, the answer to the same request at the same time is the same, status 500. In every
-- environment the same holds of the messages of Prisma: they play no part.
pub catch_exception-catch_exception :
    (now : ℕ) (request : FilteredRequest) (e e' : Exception)
    → IsInternal e
    → IsInternal e'
    → (catch_exception "production" now e request ≡ catch_exception "production" now e' request)
      × ((catch_exception "production" now e request).status_code ≡ 500)
      × ((env code message message' : String)
          → catch_exception env now (Exception.prisma code message) request
            ≡ catch_exception env now (Exception.prisma code message') request)
unfolding catch_exception
catch_exception-catch_exception now request e e' h h' =
    rw (==_refl "production", answer-IsInternal e h, answer-IsInternal e' h')
      (refl, refl, λ env code message message'. refl)
