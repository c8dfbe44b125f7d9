-- ===== src/System.antt =====
-- GError with the error codes of udisks, a fallible result, and the wait status of a child.
use storaged.Prelude.{ℕ, String}

-- The error codes of udisks, which the program reports, and any other.
pub data ErrorCode : Type 0 where
  failed already_cancelled not_authorized not_authorized_can_obtain not_authorized_dismissed :
      ErrorCode
  other_code : ℕ → ErrorCode

-- GError
pub record Error : Type 0 where
  pub domain : String
  pub code : ErrorCode
  pub message : String

abbrev pub udisks_error : ErrorCode → String → Error
udisks_error code message = record { domain = "udisks-error-quark"; code = code; message = message }

pub data Result {ℓ} (A : Type ℓ) : Type ℓ where
  ok : A → Result A
  err : Error → Result A

-- What WIFEXITED, WEXITSTATUS, WIFSIGNALED and WTERMSIG of <sys/wait.h> tell of a status.
pub data WaitStatus : Type 0 where
  exited : ℕ → WaitStatus
  signaled : ℕ → WaitStatus
  neither : WaitStatus
