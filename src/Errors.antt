-- ===== src/Errors.antt =====
-- src/core/errors.ts: the typed errors of the decision pipeline. The messages are left out: no code
-- branches on them.
pub data Thrown : Type 0 where
  validation canonicalization asset ambiguous_value provider_unavailable internal : Thrown
