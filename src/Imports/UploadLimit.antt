-- ===== src/Imports/UploadLimit.antt =====
-- src/http/common/interceptors/concurrent-upload-limit.interceptor.ts. Requests are numbers; `finalize`
-- runs once, when the answer of a request has completed, failed or been dropped.
mod Examples
use high_throughput_transact.Base.{◌⊎◌, inl, inr, Bool-cases, ◌<◌, ◌≤◌}
use high_throughput_transact.Base.{
  ℕ, ◌+◌, ◌-◌, ◌≤◌, ◌<◌, ◌≡◌, refl, true, List, [], ◌∷◌, arith, leb, ◌==◌, if◌then◌else◌, length,
  elem, ok,
}
use high_throughput_transact.Domain.Errors.{too_many_concurrent_uploads, raise, Attempt}

-- `inFlight`, with the requests that are under way, which the code does not keep.
pub record Uploads : Type 0 where
  pub in_flight : ℕ
  pub under_way : List ℕ

abbrev pub idle : Uploads
idle = record { in_flight = 0; under_way = [] }

-- `intercept`, up to the call of the handler.
unfoldable pub intercept : ℕ → ℕ → Attempt Uploads (Unit {0})
intercept limit request u =
    if leb limit u.in_flight
    then raise (too_many_concurrent_uploads limit) u
    else (ok tt, record { in_flight = u.in_flight + 1; under_way = request ∷ u.under_way })

pub drop_request : ℕ → List ℕ → List ℕ
drop_request a [] = []
drop_request a (x ∷ xs) = if a == x then xs else x ∷ drop_request a xs

-- The callback of `finalize`.
unfoldable pub finalize : ℕ → Uploads → Uploads
unfolding drop_request
finalize request u = record {
  in_flight = u.in_flight - 1;
  under_way = drop_request request u.under_way;
}

-- A request comes in, let through or not, or one under way ends.
pub data Step (limit : ℕ) (u : Uploads) : Uploads → Type 0 where
  comes : (request : ℕ) → Step limit u (intercept limit request u).1
  ends : (request : ℕ) → elem request u.under_way ≡ true → Step limit u (finalize request u)

pub data Steps (limit : ℕ) : Uploads → Type 0 where
  opened : Steps limit idle
  next : {u v : Uploads} → Steps limit u → Step limit u v → Steps limit v

length-drop_request :
    (a : ℕ) (xs : List ℕ) → elem a xs ≡ true → length (drop_request a xs) + 1 ≡ length xs
unfolding drop_request
length-drop_request a [] h = cc
length-drop_request a (x ∷ xs) h = ground (arith, length-drop_request a xs)

abbrev Counted : ℕ → Uploads → Type 0
Counted limit u = (u.in_flight ≡ length u.under_way) × (u.in_flight ≤ limit)

intercept-Counted :
    (limit request : ℕ) (u : Uploads)
    → Counted limit u
    → Counted limit (intercept limit request u).1
unfolding intercept
intercept-Counted limit request u (c, b) = ground (arith, c, b)

finalize-Counted :
    (limit request : ℕ) (u : Uploads)
    → elem request u.under_way ≡ true
    → Counted limit u
    → Counted limit (finalize request u)
unfolding finalize
finalize-Counted limit request u h (c, b) =
    let l = length-drop_request request u.under_way h in (omega arith, omega arith)

answered :
    (limit request : ℕ) (u : Uploads)
    → u.in_flight ≡ length u.under_way
    → ((length u.under_way < limit) × ((intercept limit request u).0 ≡ ok tt))
      ⊎ ((limit ≤ length u.under_way)
          × (intercept limit request u ≡ raise (too_many_concurrent_uploads limit) u))
unfolding intercept
answered limit request u c = elim (Bool-cases (leb limit u.in_flight)) [
  | inl full ↦ inr (ground arith, rw full)
  | inr free ↦ inl (ground arith, rw free)
]

-- However requests come and end, `inFlight` is the number of requests under way and at most the
-- limit; the next request is let through when fewer than the limit are under way, and otherwise it
-- is refused with the error for too many uploads and changes nothing.
pub uploads_bounded :
    (limit : ℕ) {u : Uploads} (request : ℕ)
    → Steps limit u
    → (u.in_flight ≡ length u.under_way)
      × (u.in_flight ≤ limit)
      × (((length u.under_way < limit) × ((intercept limit request u).0 ≡ ok tt))
          ⊎ ((limit ≤ length u.under_way)
              × (intercept limit request u ≡ raise (too_many_concurrent_uploads limit) u)))
uploads_bounded limit {u} request r =
    let (c, b) : Counted limit u = counted r in (c, b, answered limit request u c)
  where
    counted : {v : Uploads} → Steps limit v → Counted limit v
    counted opened = (refl, omega arith)
    counted (next {u} s (comes request)) = intercept-Counted limit request u (counted s)
    counted (next {u} s (ends request h)) = finalize-Counted limit request u h (counted s)
