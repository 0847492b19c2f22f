-- ===== src/Operator/Fetching.antt =====
-- What the API server answers to the controllers of the operator.

-- What a `Get` answers.
pub data Fetched (A : Type 0) : Type 0 where
  fetched : A → Fetched A
  missing : Fetched A
  failed : Fetched A
