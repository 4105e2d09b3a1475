-- ===== src/Contracts/Validation.antt =====
-- common/contracts/validation.py
use cryptopulse.Prelude.{String, Bool, List}

pub record ValidationFailure : Type 0 where
  pub rule : String
  pub code : String
  pub message : String

pub record ValidationOutcome : Type 0 where
  pub valid : Bool
  pub failures : List ValidationFailure
