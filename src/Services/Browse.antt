-- ===== src/Services/Browse.antt =====
-- browseAll of include/open62541pp/services/view.hpp, and `browse` and `browseNext` of a client in
-- src/services_view.cpp. The server is a parameter: its state `S`, and what it answers.
use mathlib.Core.List.{append_assoc}
use open62541pp.Prelude.{
  ℕ, zero, suc, ◌≤◌, ◌≡◌, refl, Bool, true, false, if◌then◌else◌, Option, none, some, List, [], ◌∷◌,
  ◌++◌, arith,
}
use open62541pp.Prelude.Text.{Bytes}
use open62541pp.Status.{StatusCodes}
use open62541pp.Outcome.{Outcome}
use open62541pp.Result.{Result, from_value}
use open62541pp.Services.Responses.{Response, wrap_single_result_with_status}

pub record BrowseResult {ℓ} (R : Type ℓ) : Type ℓ where
  pub status_code : ℕ
  pub continuation_point : Bytes
  pub references : List R

-- The two services, each with the state of the server after it.
pub record Browser {ℓ} (S R : Type ℓ) : Type ℓ where
  pub browse : S → S × BrowseResult R
  pub browse_next : Bool → Bytes → S → S × BrowseResult R

-- What UA_Client_Service_browse and UA_Client_Service_browseNext answer.
pub record Service {ℓ} (S R : Type ℓ) : Type ℓ where
  pub browse_response : S → S × Response (BrowseResult R)
  pub browse_next_response : Bool → Bytes → S → S × Response (BrowseResult R)

abbrev pub with_status {ℓ} : {R : Type ℓ} → ℕ → BrowseResult R
with_status code = record { status_code = code; continuation_point = []; references = [] }

module _ {ℓ} ⦃c : StatusCodes⦄ {S R : Type ℓ} where
  -- browse<Client> and browseNext<Client>
  unfoldable pub browse_client : Service S R → S → S × Outcome (BrowseResult R)
  unfolding wrap_single_result_with_status
  browse_client service s =
      let (s', response) = service.browse_response s in
      (s', wrap_single_result_with_status with_status response)

  unfoldable pub browse_next_client : Service S R → Bool → Bytes → S → S × Outcome (BrowseResult R)
  unfolding wrap_single_result_with_status
  browse_next_client service release point s =
      let (s', response) = service.browse_next_response release point s in
      (s', wrap_single_result_with_status with_status response)

module _ {ℓ} {S R : Type ℓ} (browser : Browser S R) where
  abbrev more : Bytes → Bool
  more [] = false
  more (b ∷ bytes) = true

  -- The loop; `refs` is what is collected so far, `result` the last answer, already handled.
  unfoldable pub browse_loop : ℕ → S → BrowseResult R → List R → Option (S × List R × ℕ)
  browse_loop zero s result refs =
      if more result.continuation_point then none else some (s, refs, result.status_code)
  browse_loop (suc n) s result refs =
      let (s', result') = browser.browse_next false result.continuation_point s in
      let rest = browse_loop n s' result' (refs ++ result'.references) in
      if more result.continuation_point then rest else some (s, refs, result.status_code)

  unfoldable pub browse_all : ℕ → S → Option (S × Result (List R))
  unfolding browse_loop from_value
  browse_all fuel s =
      let (s', result) = browser.browse s in
      elim (browse_loop fuel s' result result.references) [
        | none ↦ none
        | some (s'', refs, status) ↦ some (s'', from_value refs status)
      ]

  -- What a server hands out in pages: after the answer `result` there are `n` more pages, `refs` are
  -- the references of them all together with those of `result`, and the last one has the status.
  pub data Pages : S → BrowseResult R → List R → ℕ → ℕ → S → Type ℓ where
    last_page :
        {s : S} {result : BrowseResult R}
        → more result.continuation_point ≡ false
        → Pages s result result.references result.status_code 0 s
    next_page :
        {s s' end : S} {result result' : BrowseResult R} {refs : List R} {status n : ℕ}
        → more result.continuation_point ≡ true
        → browser.browse_next false result.continuation_point s ≡ (s', result')
        → Pages s' result' refs status n end
        → Pages s result (result.references ++ refs) status (suc n) end

  browse_loop-Pages :
      (fuel : ℕ) {s end : S} {result : BrowseResult R} {refs : List R} {status n : ℕ}
      (before : List R)
      → Pages s result refs status n end
      → n ≤ fuel
      → browse_loop fuel s result (before ++ result.references) ≡ some (end, before ++ refs, status)
  unfolding browse_loop
  browse_loop-Pages zero before (last_page done) enough = rw done refl
  browse_loop-Pages (suc fuel) before (last_page done) enough = rw done refl
  browse_loop-Pages zero before (next_page goes_on answer rest) enough = absurd (omega arith)
  browse_loop-Pages (suc fuel) before (next_page {result} {result'} {refs} goes_on answer rest)
        enough =
      rw (goes_on, answer, ← append_assoc before result.references refs)
        (browse_loop-Pages fuel (before ++ result.references) rest (omega arith))

  -- If the server hands out the references of a node in finitely many pages, `browseAll` ends, with
  -- no more calls of `browseNext` than there are pages after the first: it returns all references,
  -- in the order of the pages, with the status of the last page.
  pub browse_all-Pages :
      {s start end : S} {result : BrowseResult R} {refs : List R} {status n : ℕ} (fuel : ℕ)
      → browser.browse start ≡ (s, result)
      → Pages s result refs status n end
      → n ≤ fuel
      → browse_all fuel start ≡ some (end, record { code = status; maybe_value = some refs })
  unfolding browse_all from_value
  browse_all-Pages fuel answer pages enough =
      rw (browse_all, answer, browse_loop-Pages fuel [] pages enough) refl
