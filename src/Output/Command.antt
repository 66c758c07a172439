-- ===== src/Output/Command.antt =====
-- internal/output/service.go: commands, their results and their validation.
use aqua_os.Common.{
  ℕ, String, Bool, true, false, not, ◌&&◌, ◌||◌, Option, ◌>>◌, guard, Check,
  idempotency_key_invalid, requester_required, command_expiry, Time, is_zero, after, ltb, ◌==◌,
  string_eq,
}
use Prim.Native.String.{len}
use aqua_os.Domain.Ids.{validate_uuid}
use aqua_os.Safety.Engine.{Reason}

pub data Status : Type 0 where
  validated rejected dispatched acknowledged succeeded failed expired : Status

-- The stable reasons, those of the safety policy, and those that an adapter gives.
pub data CommandReason : Type 0 where
  validated_reason dispatched_reason expired_reason revision_conflict : CommandReason
  dispatch_failed adapter_rejected acknowledged_reason reconciled reported_mismatch : CommandReason
  policy_reason : Reason → CommandReason
  adapter_reason : String → CommandReason

pub record Command : Type 0 where
  pub id : String
  pub idempotency_key : String
  pub correlation_id : String
  pub equipment_id : String
  pub requester : String
  pub issued_at : Time
  pub expires_at : Time
  pub expected_revision : Option ℕ
  pub turn_on : Bool

pub record CommandResult : Type 0 where
  pub command : Command
  pub status : Status
  pub reason : CommandReason
  pub updated_at : Time
  pub acknowledged_at : Option Time
  pub reconciled_at : Option Time

pub record Acknowledgement : Type 0 where
  pub accepted : Bool
  pub reason : String
  pub acknowledged_at : Time

-- `validateCommand`. `size` is Go's `len`, the bytes of the key.
unfoldable pub validate_command : Command → Check
validate_command c = do
  validate_uuid c.id
  validate_uuid c.correlation_id
  validate_uuid c.equipment_id
  guard (not (c.idempotency_key == "" || ltb 128 (len c.idempotency_key))) idempotency_key_invalid
  guard (not (c.requester == "")) requester_required
  guard (not (is_zero c.issued_at || is_zero c.expires_at || not (after c.expires_at c.issued_at)))
      command_expiry

-- `equivalent`.
unfoldable pub equivalent : Command → Command → Bool
equivalent a b =
    a.idempotency_key == b.idempotency_key
    && a.equipment_id == b.equipment_id
    && a.requester == b.requester
    && same a.turn_on b.turn_on
  where
    same : Bool → Bool → Bool
    same true t = t
    same false t = not t
