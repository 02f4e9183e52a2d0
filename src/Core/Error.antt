-- ===== src/Core/Error.antt =====
-- nps-core/src/error.rs. A message is kept as the pieces that `format!` joins.
use nps_sdk_rust.Common.{ℕ, String, List, Result}

pub data Part : Type 0 where
  lit : String → Part
  dec : ℕ → Part
  hex : ℕ → Part

abbrev pub Message : Type 0
Message = List Part

pub data NpsError : Type 0 where
  frame : Message → NpsError
  codec : Message → NpsError
  anchor_not_found : Message → NpsError
  anchor_poison : Message → NpsError
  identity : Message → NpsError
  io : Message → NpsError

-- nps-core/src/error.rs: `NpsResult<T>`.
abbrev pub NpsResult {ℓ} : Type ℓ → Type ℓ
NpsResult A = Result NpsError A
