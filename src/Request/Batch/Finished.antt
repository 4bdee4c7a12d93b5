-- ===== src/Request/Batch/Finished.antt =====
-- distserve/request.py: what `pop_finished_requests` takes out of a batch.
use recompute_or_migrate.Base.{◌≡◌, not, List, [], ◌∷◌, ◌++◌, append-nil, append_assoc, arith, keep}
use recompute_or_migrate.Request.{Request}
use recompute_or_migrate.Request.Batch.{BatchedRequests, split_finished, pop_finished_requests}

split_finished-keep :
    (finished unfinished rs : List Request)
    → split_finished finished unfinished rs
      ≡ (finished ++ keep (λ r. r.is_finished) rs, unfinished ++ keep (λ r. not r.is_finished) rs)
unfolding split_finished
split_finished-keep finished unfinished [] = simp append-nil
split_finished-keep finished unfinished (r ∷ rs) = ground (
  arith,
  split_finished-keep (finished ++ r ∷ []) unfinished rs,
  split_finished-keep finished (unfinished ++ r ∷ []) rs,
  append_assoc finished (r ∷ []) (keep (λ q. q.is_finished) rs),
  append_assoc unfinished (r ∷ []) (keep (λ q. not q.is_finished) rs),
)

-- The finished requests leave the batch and the others stay, each in the order of the batch.
pub pop_finished_requests_lem :
    (b : BatchedRequests)
    → pop_finished_requests b ≡ (
      keep (λ r. r.is_finished) b.requests,
      record b { requests = keep (λ r. not r.is_finished) b.requests },
    )
unfolding pop_finished_requests
pop_finished_requests_lem b = rw (split_finished-keep [] [] b.requests)
