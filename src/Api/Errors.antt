-- ===== src/Api/Errors.antt =====
-- api/v1/error.go: the status that a client gets for an offset out of range.
use Prim.Native.String.{◌++◌ as ◌+++◌}
use dislog.Prelude.{ℕ, List, [], String, Result, ok, err, panic}

-- errdetails.LocalizedMessage
pub record LocalizedMessage : Type 0 where
  pub locale : String
  pub message : String

-- status.Status of google.golang.org/grpc, with its code, its message and its details
pub record Status : Type 0 where
  pub code : ℕ
  pub text : String
  pub details : List LocalizedMessage

-- What the program calls: fmt's "%d", and Status.WithDetails.
pub record StatusCalls : Type 0 where
  pub format_uint : ℕ → String
  pub with_details : Status → LocalizedMessage → Result Status

-- The status that stands when the details cannot be attached
detailed : Status → Result Status → Result Status
detailed st (ok std) = ok std
detailed st (err e) = ok st
detailed st panic = panic

module _ (calls : StatusCalls) where
  abbrev pub bare_status : ℕ → Status
  bare_status off = record {
    code = 404;
    text = "offset out of range: " +++ calls.format_uint off;
    details = [];
  }

  abbrev pub range_message : ℕ → LocalizedMessage
  range_message off = record {
    locale = "en-US";
    message = "The requested offset is outside the log's range: " +++ calls.format_uint off;
  }

  -- ErrOffsetOutOfRange.GRPCStatus
  unfoldable pub grpc_status : ℕ → Result Status
  unfolding detailed
  grpc_status off =
      detailed (bare_status off) (calls.with_details (bare_status off) (range_message off))
