-- ===== src/Tests/Requests.antt =====
-- Examples of responses and of browsing.
use open62541pp.Prelude.{ℕ, suc, ◌==◌, ◌≡◌, refl, ◌⊎◌, true, false, some, List, [], ◌∷◌, arith}
use open62541pp.Status.{is_bad, bad_unexpected_error}
use open62541pp.Outcome.{ok}
use open62541pp.Tests.Codes.{codes}
use open62541pp.Services.Responses.{
  Response, IsValid, wrap_single_result_with_status, wrap_single_result_with_status-returns,
}
use open62541pp.Services.Browse.{
  BrowseResult, Browser, Pages, last_page, next_page, browse_all, browse_all-Pages,
}

abbrev two_results : Response ℕ
two_results = record { service_result = 0; results = some (5 ∷ 6 ∷ []); results_size = 2 }

two_results-IsValid : IsValid two_results
two_results-IsValid = (λ e. cc e, λ xs e. rw (← same e) refl)
  where
    same : {xs ys : List ℕ} → some xs ≡ some ys → xs ≡ ys
    same e = cc

wrap_single_result_with_status-returns_example :
    ((is_bad two_results.service_result ≡ true)
      × (wrap_single_result_with_status (λ code. code) two_results ≡ ok two_results.service_result))
    ⊎ ((is_bad two_results.service_result ≡ false)
        × ((two_results.results_size == 1) ≡ false)
        × (wrap_single_result_with_status (λ code. code) two_results ≡ ok bad_unexpected_error))
    ⊎ ((is_bad two_results.service_result ≡ false)
        × (x : ℕ) × (two_results.results ≡ some (x ∷ []))
        × (wrap_single_result_with_status (λ code. code) two_results ≡ ok x))
wrap_single_result_with_status-returns_example =
    wrap_single_result_with_status-returns (λ code. code) two_results two_results-IsValid

-- The state of the server counts its calls; there are two pages.
abbrev first_page : BrowseResult ℕ
first_page = record { status_code = 0; continuation_point = 1 ∷ []; references = 100 ∷ 101 ∷ [] }

abbrev second_page : BrowseResult ℕ
second_page = record { status_code = 0; continuation_point = []; references = 102 ∷ [] }

abbrev browser : Browser ℕ ℕ
browser = record {
  browse = λ calls. (suc calls, first_page);
  browse_next = λ release point calls. (suc calls, second_page);
}

pages : Pages browser 1 first_page (100 ∷ 101 ∷ 102 ∷ []) 0 1 2
pages = next_page refl refl (last_page refl)

browse_all-Pages_example :
    browse_all browser 4 0
    ≡ some (2, record { code = 0; maybe_value = some (100 ∷ 101 ∷ 102 ∷ []) })
browse_all-Pages_example = browse_all-Pages browser 4 refl pages (omega arith)
