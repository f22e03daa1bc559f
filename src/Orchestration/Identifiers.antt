-- ===== src/Orchestration/Identifiers.antt =====
-- src/domains/orchestration/attempt-dispatch.ts: the derived identifiers, and the queue envelope.
use agent_pool.Prelude.{decimal}
use agent_pool.Prelude.{ℕ, ◌++◌, Text, codes, length}
use agent_pool.Orchestration.Contracts.{QueueEnvelope}

unfoldable pub derive_attempt_id : Text → Text → ℕ → Text
derive_attempt_id w n k = codes "att://" ++ (w ++ (codes "/" ++ (n ++ (codes "/" ++ decimal k))))

unfoldable pub derive_job_id : Text → Text
derive_job_id a = codes "job://" ++ a

unfoldable pub derive_criterion_id : Text → Text → ℕ → Text → Text
derive_criterion_id w n index text =
    codes "crit://"
    ++ (w
        ++ (codes "/"
            ++ (n ++ (codes "/" ++ (decimal index ++ (codes "/" ++ decimal (length text)))))))

unfoldable pub make_queue_envelope : Text → Text → ℕ → QueueEnvelope
make_queue_envelope w n k = record {
  job_id = derive_job_id (derive_attempt_id w n k);
  attempt_id = derive_attempt_id w n k;
  node_id = n;
  work_id = w;
}
